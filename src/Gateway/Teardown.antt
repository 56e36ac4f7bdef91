-- ===== src/Gateway/Teardown.antt =====
-- gateway_destroy_internal (core/src/gateway_ll.c) empties both vectors and gives back all libraries and
-- instances.
use azure_iot_gateway_sdk.Base.{
  subst, All, ℕ, zero, suc, ◌≤◌, ◌≡◌, ◌⊎◌, refl, ap, ◌∙◌, inl, inr, Bool, true, false, some, List,
  [], ◌∷◌, length, Bool-cases, arith,
}
use azure_iot_gateway_sdk.Gateway.Env.{Env}
use azure_iot_gateway_sdk.Gateway.State.{from_any, from_one, Link, Gateway, find_if}
use azure_iot_gateway_sdk.Gateway.Links.{gateway_removelink_internal}
use azure_iot_gateway_sdk.Gateway.Modules.{gateway_removemodule_internal}
use azure_iot_gateway_sdk.Gateway.Destroy.{
  destroy_events, remove_front_links, destroy_links, remove_front_modules, destroy_modules,
  gateway_destroy_internal,
}
use azure_iot_gateway_sdk.Gateway.Search.{length-erase_if}
use azure_iot_gateway_sdk.Gateway.LinkEffects.{LinkEnds, gateway_removelink_internal-LinkErased}
use azure_iot_gateway_sdk.Gateway.RemoveEffects.{gateway_removemodule_internal-ModuleRemoved}
use azure_iot_gateway_sdk.Gateway.Catalog.{
  WellFormed, kept-WellFormed, LinkErased-WellFormed, ModuleRemoved-WellFormed,
}

list_cases : {A : Type 0} (xs : List A) → (xs ≡ []) ⊎ ((x : A) × (rest : List A) × (xs ≡ x ∷ rest))
list_cases [] = inl refl
list_cases (x ∷ rest) = inr (x, rest, refl)

empty : {A : Type 0} (xs : List A) → length xs ≤ 0 → xs ≡ []
empty [] h = refl
empty (x ∷ xs) h = absurd (omega arith)

find_front :
    {A : Type 0} (xs : List A) (x : A) (rest : List A)
    → xs ≡ x ∷ rest
    → find_if (λ y. true) xs ≡ some x
unfolding find_if
find_front xs x rest e = rw e refl

module _ (libraries instances : ℕ) where
  remove_front_links-empty :
      (n : ℕ) (gw : Gateway) (e : Env)
      → length gw.links ≤ n
      → WellFormed libraries instances gw e
      → let r = remove_front_links n gw e in
        (r.0.links ≡ []) × (r.0.modules ≡ gw.modules) × WellFormed libraries instances r.0 r.1
  unfolding remove_front_links
  remove_front_links-empty zero gw e h wf = (empty gw.links h, refl, wf)
  remove_front_links-empty (suc n) gw e h wf = elim (list_cases gw.links) [
    | inl ended ↦ rw (ended, remove_front_links) (ended, refl, wf)
    | inr (link, rest, more) ↦
        let r = gateway_removelink_internal (λ l. true) gw link e in
        let erased = gateway_removelink_internal-LinkErased (λ l. true) gw link e in
        let (none_left, ms, wf') =
          remove_front_links-empty n r.0 r.1
            (omega (
              arith,
              ap length erased.1,
              length-erase_if (λ l. true) gw.links link (find_front gw.links link rest more),
            ))
            (LinkErased-WellFormed libraries instances gw e wf (λ l. true) r erased) in
        rw (more, remove_front_links) (none_left, ms ∙ erased.0, wf')
  ]

  remove_front_modules-empty :
      (n : ℕ) (gw : Gateway) (e : Env)
      → length gw.modules ≤ n
      → WellFormed libraries instances gw e
      → let r = remove_front_modules n gw e in
        (r.0.modules ≡ []) × WellFormed libraries instances r.0 r.1
  unfolding remove_front_modules
  remove_front_modules-empty zero gw e h wf = (empty gw.modules h, wf)
  remove_front_modules-empty (suc n) gw e h wf = elim (list_cases gw.modules) [
    | inl ended ↦ rw (ended, remove_front_modules) (ended, wf)
    | inr (d, rest, more) ↦
        let r = gateway_removemodule_internal (λ m. true) gw d e in
        let removed = gateway_removemodule_internal-ModuleRemoved (λ m. true) gw d e in
        let found = find_front gw.modules d rest more in
        rw (more, remove_front_modules)
          (remove_front_modules-empty n r.0 r.1
            (omega (arith, ap length removed.0, length-erase_if (λ m. true) gw.modules d found))
            (ModuleRemoved-WellFormed libraries instances gw e wf (λ m. true) d r found removed))
  ]

  destroy_events-WellFormed :
      (gw : Gateway) (e : Env)
      → WellFormed libraries instances gw e
      → let r = destroy_events gw e in
        (r.0.modules ≡ gw.modules) × WellFormed libraries instances r.0 r.1
  unfolding destroy_events
  destroy_events-WellFormed gw e wf = elim (Bool-cases gw.event_system) [
    | inl there ↦
        rw (there, destroy_events)
          (refl, kept-WellFormed libraries instances gw e wf _ _ refl wf.ends (refl, refl))
    | inr null ↦
        rw (null, destroy_events)
          (refl, kept-WellFormed libraries instances gw e wf _ _ refl wf.ends (refl, refl))
  ]

  destroy_links-WellFormed :
      (has_links : Bool) (gw : Gateway) (e : Env)
      → WellFormed libraries instances gw e
      → let r = destroy_links has_links gw e in
        (r.0.modules ≡ gw.modules) × WellFormed libraries instances r.0 r.1
  unfolding destroy_links
  destroy_links-WellFormed false gw e wf = (refl, wf)
  destroy_links-WellFormed true gw e wf =
      let (_, ms, wf') = remove_front_links-empty (length gw.links) gw e (omega arith) wf in
      (ms, kept-WellFormed libraries instances _ _ wf' _ _ refl wf'.ends (refl, refl))

  -- What is left when no module is.
  abbrev Emptied : Gateway × Env → Type 0
  Emptied (gw, e) =
      (gw.modules ≡ []) × (gw.links ≡ []) × (e.libraries ≡ libraries) × (e.instances ≡ instances)

  WellFormed-Emptied :
      (gw : Gateway) (e : Env)
      → gw.modules ≡ []
      → WellFormed libraries instances gw e
      → Emptied (gw, e)
  WellFormed-Emptied gw e none_left wf = (
    none_left,
    no_ends gw.links (subst (λ ms. All (LinkEnds ms) gw.links) none_left wf.ends),
    omega (arith, wf.libraries_eq, ap length none_left),
    omega (arith, wf.instances_eq, ap length none_left),
  )
    where
      no_ends : (ls : List Link) → All (LinkEnds []) ls → ls ≡ []
      no_ends [] h = refl
      no_ends (from_any sink ∷ ls) h = absurd h.0
      no_ends (from_one source sink ∷ ls) h = absurd h.0.0

  destroy_modules-Emptied :
      (has_modules : Bool) (gw : Gateway) (e : Env)
      → (has_modules ≡ false → gw.modules ≡ [])
      → WellFormed libraries instances gw e
      → Emptied (destroy_modules has_modules gw e)
  unfolding destroy_modules
  destroy_modules-Emptied false gw e no_vector wf = WellFormed-Emptied gw e (no_vector refl) wf
  destroy_modules-Emptied true gw e no_vector wf =
      let r = remove_front_modules (length gw.modules) gw e in
      let (none_left, wf') = remove_front_modules-empty (length gw.modules) gw e (omega arith) wf in
      WellFormed-Emptied r.0 r.1 none_left wf'

  -- The destruction of a well-formed gateway, also of one whose creation failed half way and that has no
  -- modules where it has no vector of them: its loops end with no module and no link left, and one library
  -- and one instance are given back for every module that it had.
  pub gateway_destroy_internal-returns :
      (has_modules has_links : Bool) (gw : Gateway) (e : Env)
      → (has_modules ≡ false → gw.modules ≡ [])
      → WellFormed libraries instances gw e
      → let r = gateway_destroy_internal has_modules has_links gw e in
        (r.0.modules ≡ [])
        × (r.0.links ≡ [])
        × (r.1.libraries ≡ libraries)
        × (r.1.instances ≡ instances)
  unfolding gateway_destroy_internal
  gateway_destroy_internal-returns has_modules has_links gw e no_vector wf =
      let r1 = destroy_events gw e in
      let (ms1, wf1) = destroy_events-WellFormed gw e wf in
      let r2 = destroy_links has_links r1.0 r1.1 in
      let (ms2, wf2) = destroy_links-WellFormed has_links r1.0 r1.1 wf1 in
      destroy_modules-Emptied has_modules r2.0 r2.1 (λ null. ms2 ∙ ms1 ∙ no_vector null) wf2
