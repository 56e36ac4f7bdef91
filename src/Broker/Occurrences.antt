-- ===== src/Broker/Occurrences.antt =====
-- Counts of subscriptions to a topic, and lists of modules in which one is changed (core/src/broker.c).
use azure_iot_gateway_sdk.Base.{
  ℕ, ◌+◌, ◌-◌, ◌≡◌, ◌≢◌, refl, sym, ap, ◌∙◌, inl, inr, true, false, Bool-cases, Option, some, none,
  List, [], ◌∷◌, map, ◌==◌, if◌then◌else◌, arith,
}
use azure_iot_gateway_sdk.Broker.State.{
  Module, ModuleInfo, Topic, Broker, list_find, list_update, find_module_predicate,
}
use azure_iot_gateway_sdk.Broker.Links.{eq_topic, drop_topic}
use azure_iot_gateway_sdk.Broker.Routing.{eq_topic→eq}

-- How many subscriptions to the topic are in the list.
unfoldable pub occurrences : Topic → List Topic → ℕ
occurrences t [] = 0
occurrences t (u ∷ us) = (if eq_topic t u then 1 else 0) + occurrences t us

unfoldable pub occurrences_of : Topic → Option ModuleInfo → ℕ
occurrences_of t none = 0
occurrences_of t (some info) = occurrences t info.topics

-- The subscriptions to the topic of the module with the handle.
abbrev pub subscriptions : Broker → ℕ → Topic → ℕ
subscriptions b handle t = occurrences_of t (list_find handle b.modules)

abbrev pub identity_of : ModuleInfo → Module × Topic
identity_of info = (info.module_data, info.quit_message_guid)

pub eq_topic_other : (t u : Topic) → t ≢ u → eq_topic t u ≡ false
eq_topic_other t u ne = elim (Bool-cases (eq_topic t u)) [
  | inl same ↦ absurd (ne (eq_topic→eq t u same))
  | inr other ↦ other
]

pub occurrences-drop_topic :
    (t : Topic) (us : List Topic) → occurrences t (drop_topic t us) ≡ occurrences t us - 1
unfolding occurrences drop_topic
occurrences-drop_topic t [] = refl
occurrences-drop_topic t (u ∷ us) = elim (Bool-cases (eq_topic t u)) [
  | inl same ↦ simp same (omega arith)
  | inr other ↦ simp other (omega (arith, occurrences-drop_topic t us))
]

pub occurrences-drop_other :
    (t other : Topic) (us : List Topic)
    → other ≢ t
    → occurrences other (drop_topic t us) ≡ occurrences other us
unfolding occurrences drop_topic
occurrences-drop_other t other [] ne = refl
occurrences-drop_other t other (u ∷ us) ne = elim (Bool-cases (eq_topic t u)) [
  | inl same ↦
      simp (same, eq_topic_other other u (λ e. ne (e ∙ sym (eq_topic→eq t u same)))) (omega arith)
  | inr differs ↦ simp differs (omega (arith, occurrences-drop_other t other us ne))
]

one_handle :
    (m : ModuleInfo) (handle h : ℕ)
    → find_module_predicate m handle ≡ true
    → h ≢ handle
    → find_module_predicate m h ≡ false
unfolding find_module_predicate
one_handle m handle h hit ne = ground arith

-- A change of the module with the handle, in the list of modules.
module _ (handle : ℕ) (f : ModuleInfo → ModuleInfo)
    (same : (info : ModuleInfo) → identity_of (f info) ≡ identity_of info) where
  handle_kept :
      (info : ModuleInfo) (h : ℕ) → find_module_predicate (f info) h ≡ find_module_predicate info h
  unfolding find_module_predicate
  handle_kept info h = ap (λ (x : Module × Topic). x.0.module_handle == h) (same info)

  pub list_find-list_update :
      (ms : List ModuleInfo) (info : ModuleInfo)
      → list_find handle ms ≡ some info
      → list_find handle (list_update handle f ms) ≡ some (f info)
  unfolding list_find list_update
  list_find-list_update [] info h = absurd cc
  list_find-list_update (m ∷ ms) info h = elim (Bool-cases (find_module_predicate m handle)) [
    | inl hit ↦
        let found : m ≡ info = cc (h, hit) in
        simp (hit, handle_kept m handle) (ap (λ x. some (f x)) found)
    | inr miss ↦ simp miss (list_find-list_update ms info (simp miss at h))
  ]

  pub list_find-list_update_other :
      (ms : List ModuleInfo) (h : ℕ)
      → h ≢ handle
      → list_find h (list_update handle f ms) ≡ list_find h ms
  unfolding list_find list_update
  list_find-list_update_other [] h ne = refl
  list_find-list_update_other (m ∷ ms) h ne = elim (Bool-cases (find_module_predicate m handle)) [
    | inl hit ↦
        let missed = one_handle m handle h hit ne in simp (hit, handle_kept m h, missed) refl
    | inr miss ↦ elim (Bool-cases (find_module_predicate m h)) [
      | inl found ↦ simp (miss, found) refl
      | inr missed ↦ simp (miss, missed) (list_find-list_update_other ms h ne)
    ]
  ]

  pub identities-list_update :
      (ms : List ModuleInfo) → map identity_of (list_update handle f ms) ≡ map identity_of ms
  unfolding list_update
  identities-list_update [] = refl
  identities-list_update (m ∷ ms) = elim (Bool-cases (find_module_predicate m handle)) [
    | inl hit ↦ simp hit (ap (λ x. x ∷ map identity_of ms) (same m))
    | inr miss ↦ simp miss (ap (λ xs. identity_of m ∷ xs) (identities-list_update ms))
  ]
