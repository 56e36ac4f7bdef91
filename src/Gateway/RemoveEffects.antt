-- ===== src/Gateway/RemoveEffects.antt =====
-- What removing a module does to the vectors of core/src/gateway_ll.c, and its loops' ends.
use azure_iot_gateway_sdk.Base.{
  ℕ, zero, suc, ◌-◌, ◌≤◌, ◌≡◌, refl, sym, ap, ◌∙◌, inl, inr, Bool, false, List, [], ◌∷◌, length,
  All, if◌then◌else◌, Bool-cases, Option-cases, arith,
}
use azure_iot_gateway_sdk.Gateway.Env.{Env}
use azure_iot_gateway_sdk.Gateway.State.{
  Name, ModuleData, Link, Gateway, find_if, erase_if, link_name_both_find,
}
use azure_iot_gateway_sdk.Gateway.BrokerLinks.{remove_module_from_any_source}
use azure_iot_gateway_sdk.Gateway.Links.{gateway_removelink_internal}
use azure_iot_gateway_sdk.Gateway.Modules.{remove_links_of, gateway_removemodule_internal}
use azure_iot_gateway_sdk.Gateway.Search.{find_if-none, length-erase_if}
use azure_iot_gateway_sdk.Gateway.LinkEffects.{
  Same, LinkErased, gateway_removelink_internal-LinkErased,
}

-- The elements that do not fit, in their order.
abbrev pub without : {A : Type 0} → (A → Bool) → List A → List A
without p [] = []
without p (x ∷ xs) = if p x then without p xs else x ∷ without p xs

module _ {A : Type 0} (p : A → Bool) where
  without-erase_if : (xs : List A) → without p (erase_if p xs) ≡ without p xs
  unfolding erase_if
  without-erase_if [] = refl
  without-erase_if (x ∷ xs) = elim (Bool-cases (p x)) [
    | inl hit ↦ rw (hit, without) refl
    | inr miss ↦ rw (miss, without) (rw miss (ap (◌∷◌ x) (without-erase_if xs)))
  ]

  without_none : (xs : List A) → All (λ x. p x ≡ false) xs → without p xs ≡ xs
  without_none [] h = refl
  without_none (x ∷ xs) h = rw (h.0, without) (ap (◌∷◌ x) (without_none xs h.1))

  pub without-All :
      (P : A → Type 0) (xs : List A) → All P xs → All (λ x. P x × (p x ≡ false)) (without p xs)
  without-All P [] h = tt
  without-All P (x ∷ xs) h = elim (Bool-cases (p x)) [
    | inl hit ↦ rw (hit, without) (without-All P xs h.1)
    | inr miss ↦ rw (miss, without) ((h.0, miss), without-All P xs h.1)
  ]

abbrev LinksRemoved : Name → Gateway → Env → Gateway × Env → Type 0
LinksRemoved name gw e (gw', e') =
    (gw'.modules ≡ gw.modules)
    × (gw'.links ≡ without (link_name_both_find name) gw.links)
    × Same e e'

next_removed :
    (name : Name) (gw : Gateway) (e : Env) (r : Gateway × Env) (r' : Gateway × Env)
    → LinkErased (link_name_both_find name) gw e r
    → LinksRemoved name r.0 r.1 r'
    → LinksRemoved name gw e r'
next_removed name gw e (gw1, e1) (gw2, e2) (ms, ls, (libs, insts)) (ms', ls', (libs', insts')) = (
  ms' ∙ ms,
  ls'
      ∙ ap (without (link_name_both_find name)) ls
      ∙ without-erase_if (link_name_both_find name) gw.links,
  (libs' ∙ libs, insts' ∙ insts),
)

-- Fuel for each link is enough: the loop ends because no link names the module.
remove_links_of-LinksRemoved :
    (n : ℕ) (name : Name) (gw : Gateway) (e : Env)
    → length gw.links ≤ n
    → LinksRemoved name gw e (remove_links_of n name gw e)
unfolding remove_links_of
remove_links_of-LinksRemoved zero name gw e h =
    (refl, sym (without_none _ gw.links (empty gw.links h)), (refl, refl))
  where
    empty : (ls : List Link) → length ls ≤ 0 → All (λ l. link_name_both_find name l ≡ false) ls
    empty [] h = tt
    empty (l ∷ ls) h = absurd (omega arith)
remove_links_of-LinksRemoved (suc n) name gw e h =
    let p = link_name_both_find name in
    elim (Option-cases (find_if p gw.links)) [
      | inl ended ↦
          rw (ended, remove_links_of)
            (refl, sym (without_none p gw.links (find_if-none p gw.links ended)), (refl, refl))
      | inr (link, found) ↦
          let r = gateway_removelink_internal p gw link e in
          let erased = gateway_removelink_internal-LinkErased p gw link e in
          rw (found, remove_links_of)
            (next_removed name gw e r (remove_links_of n name r.0 r.1) erased (
              remove_links_of-LinksRemoved n name r.0 r.1
                (omega (arith, ap length erased.1, length-erase_if p gw.links link found))))
    ]

-- What is left when the first module that fits `p`, which is `d`, is removed.
abbrev pub ModuleRemoved : (ModuleData → Bool) → Gateway → ModuleData → Env → Gateway × Env → Type 0
ModuleRemoved p gw d e (gw', e') =
    (gw'.modules ≡ erase_if p gw.modules)
    × (gw'.links ≡ without (link_name_both_find d.module_name) gw.links)
    × (e'.libraries ≡ e.libraries - 1)
    × (e'.instances ≡ e.instances - 1)

-- Whatever the broker answers, the removal of a module takes it out of the modules, takes exactly the
-- links that name it as source or sink out of the links, in one run of the loop, keeps the others in
-- their order, and gives back one library and one instance.
pub gateway_removemodule_internal-ModuleRemoved :
    (p : ModuleData → Bool) (gw : Gateway) (d : ModuleData) (e : Env)
    → ModuleRemoved p gw d e (gateway_removemodule_internal p gw d e)
unfolding gateway_removemodule_internal
gateway_removemodule_internal-ModuleRemoved p gw d e =
    let r = remove_module_from_any_source gw.links gw.modules d.module_handle gw.broker e.world in
    let (ms, ls, (libs, insts)) =
      remove_links_of-LinksRemoved (length gw.links) d.module_name (record gw { broker = r.0 })
        (record e { world = r.1 }) (omega arith) in
    (ap (erase_if p) ms, ls, ap (λ k. k - 1) libs, ap (λ k. k - 1) insts)
