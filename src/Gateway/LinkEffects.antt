-- ===== src/Gateway/LinkEffects.antt =====
-- What adding and removing links does to the vectors of core/src/gateway_ll.c.
use azure_iot_gateway_sdk.Base.{
  ◌+◌, ◌≡◌, refl, inl, inr, Bool, true, false, List, [], ◌∷◌, ◌++◌, All, Among, Bool-cases,
  Option-cases, arith,
}
use azure_iot_gateway_sdk.Gateway.Env.{Env}
use azure_iot_gateway_sdk.Gateway.State.{
  ModuleData, Link, from_any, from_one, Gateway, LinkEntry, gateway_all, strcmp_eq, find_if,
  erase_if, module_name_find, link_data_find, link_entry_fits, check_if_link_exists,
}
use azure_iot_gateway_sdk.Gateway.BrokerLinks.{add_one_link_to_broker, link_all_to}
use azure_iot_gateway_sdk.Gateway.Links.{
  any_source_with, add_any_source_link, regular_with, add_regular_link, gateway_addlink_internal,
  unlink, gateway_removelink_internal,
}
use azure_iot_gateway_sdk.Gateway.Search.{find_if-Among, find_if-none}

-- What is held beside the broker is the same.
abbrev pub Same : Env → Env → Type 0
Same e e' = (e'.libraries ≡ e.libraries) × (e'.instances ≡ e.instances)

-- The modules that a link names are in the vector.
abbrev pub LinkEnds : List ModuleData → Link → Type 0
LinkEnds ms (from_any sink) = Among sink ms
LinkEnds ms (from_one source sink) = Among source ms × Among sink ms

-- A link that fits the entry was put at the end, where none fitted it before; or no vector changed.
abbrev pub LinkAdded : Gateway → LinkEntry → Env → (Bool × Gateway) × Env → Type 0
LinkAdded gw entry e ((true, gw'), e') =
    (link : Link) × (gw'.modules ≡ gw.modules)
    × (gw'.links ≡ gw.links ++ link ∷ [])
    × LinkEnds gw.modules link
    × (link_data_find entry link ≡ true)
    × All (λ (l : Link). link_data_find entry l ≡ false) gw.links
    × Same e e'
LinkAdded gw entry e ((false, gw'), e') =
    (gw'.modules ≡ gw.modules) × (gw'.links ≡ gw.links) × Same e e'

module _ (gw : Gateway) (entry : LinkEntry) (e : Env)
    (fresh : All (λ (l : Link). link_data_find entry l ≡ false) gw.links) where
  any_source_with-LinkAdded :
      (sink : ModuleData)
      → Among sink gw.modules
      → link_data_find entry (from_any sink) ≡ true
      → LinkAdded gw entry e (any_source_with gw sink e)
  unfolding any_source_with
  any_source_with-LinkAdded sink a fits = elim (Bool-cases (e.world.oracle e.world.calls)) [
    | inr refused ↦ rw refused (refl, refl, (refl, refl))
    | inl pushed ↦
        let w = record e.world { calls = e.world.calls + 1 } in
        rw pushed (elim (Bool-cases (link_all_to gw.modules sink.module_handle gw.broker w).0.0) [
          | inl done ↦ rw done (from_any sink, refl, refl, a, fits, fresh, (refl, refl))
          | inr failed ↦ rw failed (refl, refl, (refl, refl))
        ])
  ]

  regular_with-LinkAdded :
      (source sink : ModuleData)
      → Among source gw.modules
      → Among sink gw.modules
      → link_data_find entry (from_one source sink) ≡ true
      → LinkAdded gw entry e (regular_with gw source sink e)
  unfolding regular_with
  regular_with-LinkAdded source sink a b fits =
      let r = add_one_link_to_broker gw.broker source.module_handle sink.module_handle e.world in
      elim (Bool-cases r.0.0) [
        | inr failed ↦ rw failed (refl, refl, (refl, refl))
        | inl done ↦ rw done (elim (Bool-cases (r.1.oracle r.1.calls)) [
          | inl pushed ↦
              rw pushed (from_one source sink, refl, refl, (a, b), fits, fresh, (refl, refl))
          | inr refused ↦ rw refused (refl, refl, (refl, refl))
        ])
      ]

-- A sink that the name search gives, for an entry with a source of "*".
fits_any :
    (entry : LinkEntry) (sink : ModuleData)
    → strcmp_eq gateway_all entry.module_source ≡ true
    → module_name_find entry.module_sink sink ≡ true
    → link_data_find entry (from_any sink) ≡ true
unfolding link_data_find link_entry_fits module_name_find
fits_any entry sink star named = rw star named

fits_one :
    (entry : LinkEntry) (source sink : ModuleData)
    → strcmp_eq gateway_all entry.module_source ≡ false
    → module_name_find entry.module_source source ≡ true
    → module_name_find entry.module_sink sink ≡ true
    → link_data_find entry (from_one source sink) ≡ true
unfolding link_data_find link_entry_fits module_name_find
fits_one entry source sink regular source_named sink_named =
    rw (regular, sink_named, source_named) refl

not_there :
    (gw : Gateway) (entry : LinkEntry)
    → check_if_link_exists gw entry ≡ false
    → All (λ (l : Link). link_data_find entry l ≡ false) gw.links
unfolding check_if_link_exists
not_there gw entry h = elim (Option-cases (find_if (link_data_find entry) gw.links)) [
  | inl e ↦ find_if-none (link_data_find entry) gw.links e
  | inr (link, e) ↦ absurd (absurd_bool (rw (e, check_if_link_exists) at h))
]
  where
    absurd_bool : true ≡ false → ⊥
    absurd_bool x = ground arith

add_any_source_link-LinkAdded :
    (gw : Gateway) (entry : LinkEntry) (e : Env)
    → All (λ (l : Link). link_data_find entry l ≡ false) gw.links
    → strcmp_eq gateway_all entry.module_source ≡ true
    → LinkAdded gw entry e (add_any_source_link gw entry e)
unfolding add_any_source_link
add_any_source_link-LinkAdded gw entry e fresh star =
    elim (Option-cases (find_if (module_name_find entry.module_sink) gw.modules)) [
      | inl missing ↦ rw (missing, add_any_source_link) (refl, refl, (refl, refl))
      | inr (sink, found) ↦
          let (among, named) =
            find_if-Among (module_name_find entry.module_sink) gw.modules sink found in
          rw (found, add_any_source_link)
            (any_source_with-LinkAdded gw entry e fresh sink among (fits_any entry sink star named))
    ]

add_regular_link-LinkAdded :
    (gw : Gateway) (entry : LinkEntry) (e : Env)
    → All (λ (l : Link). link_data_find entry l ≡ false) gw.links
    → strcmp_eq gateway_all entry.module_source ≡ false
    → LinkAdded gw entry e (add_regular_link gw entry e)
unfolding add_regular_link
add_regular_link-LinkAdded gw entry e fresh regular =
    elim (Option-cases (find_if (module_name_find entry.module_source) gw.modules)) [
      | inl missing ↦ rw (missing, add_regular_link) (refl, refl, (refl, refl))
      | inr (source, found) ↦
          rw (found, add_regular_link)
            (elim (Option-cases (find_if (module_name_find entry.module_sink) gw.modules)) [
              | inl missing ↦ rw (missing, add_regular_link) (refl, refl, (refl, refl))
              | inr (sink, found') ↦
                  let (a, named) =
                    find_if-Among (module_name_find entry.module_source) gw.modules source found in
                  let (b, named') =
                    find_if-Among (module_name_find entry.module_sink) gw.modules sink found' in
                  rw (found', add_regular_link)
                    (regular_with-LinkAdded gw entry e fresh source sink a b
                      (fits_one entry source sink regular named named'))
            ])
    ]

-- A link is added at the end of the gateway's links exactly when the call returns that it was: it
-- fits the entry, no link did before, and the modules that it names are modules of the gateway. Else
-- the modules and the links are as before. Either way no library and no instance comes or goes.
pub gateway_addlink_internal-LinkAdded :
    (gw : Gateway) (entry : LinkEntry) (e : Env)
    → LinkAdded gw entry e (gateway_addlink_internal gw entry e)
unfolding gateway_addlink_internal
gateway_addlink_internal-LinkAdded gw entry e = elim (Bool-cases (check_if_link_exists gw entry)) [
  | inl there ↦ rw (there, gateway_addlink_internal) (refl, refl, (refl, refl))
  | inr fresh ↦
      rw (fresh, gateway_addlink_internal)
        (elim (Bool-cases (strcmp_eq gateway_all entry.module_source)) [
          | inl star ↦
              rw (star, gateway_addlink_internal)
                (add_any_source_link-LinkAdded gw entry e (not_there gw entry fresh) star)
          | inr regular ↦
              rw (regular, gateway_addlink_internal)
                (add_regular_link-LinkAdded gw entry e (not_there gw entry fresh) regular)
        ])
]

-- The removal of a link takes the first link that fits out of the vector, and changes no other.
abbrev pub LinkErased : (Link → Bool) → Gateway → Env → Gateway × Env → Type 0
LinkErased p gw e (gw', e') =
    (gw'.modules ≡ gw.modules) × (gw'.links ≡ erase_if p gw.links) × Same e e'

pub gateway_removelink_internal-LinkErased :
    (p : Link → Bool) (gw : Gateway) (link : Link) (e : Env)
    → LinkErased p gw e (gateway_removelink_internal p gw link e)
unfolding gateway_removelink_internal unlink
gateway_removelink_internal-LinkErased p gw (from_any sink) e = (refl, refl, (refl, refl))
gateway_removelink_internal-LinkErased p gw (from_one source sink) e = (refl, refl, (refl, refl))
