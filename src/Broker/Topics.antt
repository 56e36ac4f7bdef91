-- ===== src/Broker/Topics.antt =====
-- The subscriptions of a module's socket (core/src/broker.c), and what keeps the one to the quit
-- signal.
use azure_iot_gateway_sdk.Base.{
  ℕ, ◌≡◌, ◌≢◌, sym, ap, ◌∙◌, inl, inr, List, [], ◌∷◌, ◌++◌, length, All, Among, Bool-cases, arith,
}
use azure_iot_gateway_sdk.Broker.State.{
  ModuleInfo, Topic, list_remove, list_update, find_module_predicate,
}
use azure_iot_gateway_sdk.Broker.Links.{handle_bytes, eq_topic, drop_topic, subscribe, unsubscribe}
use azure_iot_gateway_sdk.Broker.Routing.{eq_topic→eq}

module _ (guids : ℕ → List ℕ) where
  -- The quit signal is one of the unique ids, and a subscription of the module's socket.
  abbrev pub Listens : ModuleInfo → Type 0
  Listens info =
      ((n : ℕ) × (info.quit_message_guid ≡ guids n)) × Among info.quit_message_guid info.topics

  pub list_remove-All :
      (h : ℕ) (ms : List ModuleInfo) → All Listens ms → All Listens (list_remove h ms)
  unfolding list_remove
  list_remove-All h [] l = tt
  list_remove-All h (m ∷ ms) l = elim (Bool-cases (find_module_predicate m h)) [
    | inl e ↦ rw e l.1
    | inr e ↦ rw e (l.0, list_remove-All h ms l.1)
  ]

  pub list_update-All :
      (h : ℕ) (f : ModuleInfo → ModuleInfo) (ms : List ModuleInfo)
      → ((info : ModuleInfo) → Listens info → Listens (f info))
      → All Listens ms
      → All Listens (list_update h f ms)
  unfolding list_update
  list_update-All h f [] keep l = tt
  list_update-All h f (m ∷ ms) keep l = elim (Bool-cases (find_module_predicate m h)) [
    | inl e ↦ rw e (keep m l.0, l.1)
    | inr e ↦ rw e (l.0, list_update-All h f ms keep l.1)
  ]

  pub append-All :
      (ms : List ModuleInfo) (info : ModuleInfo)
      → All Listens ms
      → Listens info
      → All Listens (ms ++ info ∷ [])
  append-All [] info l h = (h, tt)
  append-All (m ∷ ms) info l h = (l.0, append-All ms info l.1 h)

  module _ (long : (n : ℕ) → length (guids n) ≡ 36) where
    drop_topic-Among :
        (t d : Topic) (us : List Topic) → d ≢ t → Among t us → Among t (drop_topic d us)
    unfolding drop_topic
    drop_topic-Among t d [] ne a = absurd a
    drop_topic-Among t d (u ∷ us) ne (inl e) = elim (Bool-cases (eq_topic d u)) [
      | inl hit ↦ absurd (ne (eq_topic→eq d u hit ∙ sym e))
      | inr miss ↦ rw miss (inl e)
    ]
    drop_topic-Among t d (u ∷ us) ne (inr a) = elim (Bool-cases (eq_topic d u)) [
      | inl hit ↦ rw hit a
      | inr miss ↦ rw miss (inr (drop_topic-Among t d us ne a))
    ]

    pub unsubscribe-Listens :
        (h : ℕ) (info : ModuleInfo) → Listens info → Listens (unsubscribe (handle_bytes h) info)
    unfolding unsubscribe
    unsubscribe-Listens h info ((n, e), a) =
        ((n, e), drop_topic-Among info.quit_message_guid (handle_bytes h) info.topics differs a)
      where
        differs : handle_bytes h ≢ info.quit_message_guid
        differs same = absurd (omega (arith, ap length (same ∙ e), long n))

    pub subscribe-Listens :
        (h : ℕ) (info : ModuleInfo) → Listens info → Listens (subscribe (handle_bytes h) info)
    unfolding subscribe
    subscribe-Listens h info (e, a) = (e, inr a)
