-- ===== src/Gateway/Creation.antt =====
-- Gateway_LL_Create (core/src/gateway_ll.c) makes a gateway whose vectors are well formed, or gives back
-- every library and instance.
use azure_iot_gateway_sdk.Base.{
  ℕ, ◌+◌, ◌≡◌, refl, inl, inr, Bool, true, false, not, Option, some, none, List, [], ◌∷◌, ◌==◌,
  Bool-cases, Option-cases, arith,
}
use azure_iot_gateway_sdk.Broker.State.{Broker}
use azure_iot_gateway_sdk.Gateway.Env.{Env, G}
use azure_iot_gateway_sdk.Gateway.State.{Gateway, LinkEntry, ModulesEntry}
use azure_iot_gateway_sdk.Gateway.Links.{gateway_addlink_internal}
use azure_iot_gateway_sdk.Gateway.Modules.{gateway_addmodule_internal}
use azure_iot_gateway_sdk.Gateway.Create.{
  GatewayProperties, zeroed, give_up, go_on, add_modules, add_links, init_events, fill_links,
  fill_modules, fill_gateway, with_broker, gateway_ll_create,
}
use azure_iot_gateway_sdk.Gateway.LinkEffects.{gateway_addlink_internal-LinkAdded}
use azure_iot_gateway_sdk.Gateway.ModuleEffects.{gateway_addmodule_internal-ModuleAdded}
use azure_iot_gateway_sdk.Gateway.Catalog.{
  WellFormed, kept-WellFormed, LinkAdded-WellFormed, ModuleAdded-WellFormed,
}
use azure_iot_gateway_sdk.Gateway.Teardown.{gateway_destroy_internal-returns}

-- The gateway is well formed, or there is none, and then nothing is held for one.
abbrev pub Catalog : ℕ → ℕ → Option Gateway × Env → Type 0
Catalog libraries instances (none, e) = (e.libraries ≡ libraries) × (e.instances ≡ instances)
Catalog libraries instances (some gw, e) = WellFormed libraries instances gw e

module _ (libraries instances : ℕ) where
  give_up-Catalog :
      (has_modules has_links : Bool) (gw : Gateway) (e : Env)
      → (has_modules ≡ false → gw.modules ≡ [])
      → WellFormed libraries instances gw e
      → Catalog libraries instances (give_up has_modules has_links gw e)
  unfolding give_up
  give_up-Catalog has_modules has_links gw e no_vector wf =
      let (_, _, libs, insts) =
        gateway_destroy_internal-returns libraries instances has_modules has_links gw e no_vector
          wf in
      (libs, insts)

  go_on-Good :
      (added : Bool) (gw : Gateway) (e : Env) (rest : G (Bool × Gateway))
      → WellFormed libraries instances gw e
      → WellFormed libraries instances (rest e).0.1 (rest e).1
      → let r = go_on added gw rest e in WellFormed libraries instances r.0.1 r.1
  unfolding go_on
  go_on-Good false gw e rest wf more = wf
  go_on-Good true gw e rest wf more = more

  add_modules-Good :
      (entries : List ModulesEntry) (gw : Gateway) (e : Env)
      → WellFormed libraries instances gw e
      → let r = add_modules entries gw e in WellFormed libraries instances r.0.1 r.1
  unfolding add_modules
  add_modules-Good [] gw e wf = wf
  add_modules-Good (entry ∷ entries) gw e wf =
      let r = gateway_addmodule_internal gw entry.module_path entry.module_name e in
      let wf' =
        ModuleAdded-WellFormed libraries instances gw e wf entry.module_name r
          (gateway_addmodule_internal-ModuleAdded gw entry.module_path entry.module_name e) in
      go_on-Good (not (r.0.0 == 0)) r.0.1 r.1 (add_modules entries r.0.1) wf'
        (add_modules-Good entries r.0.1 r.1 wf')

  add_links-Good :
      (entries : List LinkEntry) (gw : Gateway) (e : Env)
      → WellFormed libraries instances gw e
      → let r = add_links entries gw e in WellFormed libraries instances r.0.1 r.1
  unfolding add_links
  add_links-Good [] gw e wf = wf
  add_links-Good (entry ∷ entries) gw e wf =
      let r = gateway_addlink_internal gw entry e in
      let wf' =
        LinkAdded-WellFormed libraries instances gw e wf entry r
          (gateway_addlink_internal-LinkAdded gw entry e) in
      go_on-Good r.0.0 r.0.1 r.1 (add_links entries r.0.1) wf'
        (add_links-Good entries r.0.1 r.1 wf')

  init_events-Catalog :
      (gw : Gateway) (e : Env)
      → WellFormed libraries instances gw e
      → Catalog libraries instances (init_events gw e)
  unfolding init_events
  init_events-Catalog gw e wf = elim (Bool-cases (e.world.oracle e.world.calls)) [
    | inl made ↦
        rw (made, init_events)
          (kept-WellFormed libraries instances gw e wf _ _ refl wf.ends (refl, refl))
    | inr failed ↦
        rw (failed, init_events)
          (give_up-Catalog true true gw _ (λ x. absurd (ground arith))
            (kept-WellFormed libraries instances gw e wf gw _ refl wf.ends (refl, refl)))
  ]

  fill_links-Catalog :
      (entries : Option (List LinkEntry)) (gw : Gateway) (e : Env)
      → WellFormed libraries instances gw e
      → Catalog libraries instances (fill_links entries gw e)
  unfolding fill_links
  fill_links-Catalog none gw e wf = init_events-Catalog gw e wf
  fill_links-Catalog (some entries) gw e wf =
      let r = add_links entries gw e in
      let wf' = add_links-Good entries gw e wf in
      elim (Bool-cases r.0.0) [
        | inl added ↦ rw (added, fill_links) (init_events-Catalog r.0.1 r.1 wf')
        | inr failed ↦
            rw (failed, fill_links)
              (give_up-Catalog true true r.0.1 r.1 (λ x. absurd (ground arith)) wf')
      ]

  fill_gateway-Catalog :
      (properties : Option GatewayProperties) (gw : Gateway) (e : Env)
      → WellFormed libraries instances gw e
      → Catalog libraries instances (fill_gateway properties gw e)
  unfolding fill_gateway fill_modules
  fill_gateway-Catalog none gw e wf = init_events-Catalog gw e wf
  fill_gateway-Catalog (some properties) gw e wf = elim (Option-cases properties.gateway_modules) [
    | inl null ↦ rw (null, fill_modules) (init_events-Catalog gw e wf)
    | inr (entries, given) ↦
        let r = add_modules entries gw e in
        let wf' = add_modules-Good entries gw e wf in
        rw (given, fill_modules)
          (elim (Bool-cases r.0.0) [
            | inl added ↦
                rw (added, fill_modules) (fill_links-Catalog properties.gateway_links r.0.1 r.1 wf')
            | inr failed ↦
                rw (failed, fill_modules)
                  (give_up-Catalog true true r.0.1 r.1 (λ x. absurd (ground arith)) wf')
          ])
  ]

  new_WellFormed :
      (b : Option Broker) (e : Env)
      → e.libraries ≡ libraries
      → e.instances ≡ instances
      → WellFormed libraries instances (record zeroed { broker = b }) e
  new_WellFormed b e libs insts = record {
    libraries_eq = omega (arith, libs);
    instances_eq = omega (arith, insts);
    distinct = tt;
    no_all = tt;
    ends = tt;
  }

  with_broker-Catalog :
      (properties : Option GatewayProperties) (b : Option Broker) (e : Env)
      → e.libraries ≡ libraries
      → e.instances ≡ instances
      → Catalog libraries instances (with_broker properties b e)
  unfolding with_broker
  with_broker-Catalog properties none e libs insts =
      give_up-Catalog false false zeroed e (λ x. refl) (new_WellFormed none e libs insts)
  with_broker-Catalog properties (some b) e libs insts =
      let gw = record zeroed { broker = some b } in
      elim (Bool-cases (e.world.oracle e.world.calls)) [
        | inr failed ↦
            rw (failed, with_broker)
              (give_up-Catalog false false gw _ (λ x. refl) (new_WellFormed (some b) _ libs insts))
        | inl made ↦
            rw (made, with_broker)
              (elim (Bool-cases (e.world.oracle (e.world.calls + 1))) [
                | inr failed ↦
                    rw (failed, with_broker)
                      (give_up-Catalog true false gw _ (λ x. refl)
                        (new_WellFormed (some b) _ libs insts))
                | inl made' ↦
                    rw (made', with_broker)
                      (fill_gateway-Catalog properties gw _ (new_WellFormed (some b) _ libs insts))
              ])
      ]

  pub create-Catalog :
      (properties : Option GatewayProperties) (e : Env)
      → e.libraries ≡ libraries
      → e.instances ≡ instances
      → Catalog libraries instances (gateway_ll_create properties e)
  unfolding gateway_ll_create
  create-Catalog properties e libs insts = elim (Bool-cases (e.world.oracle e.world.calls)) [
    | inr failed ↦ rw (failed, gateway_ll_create) (libs, insts)
    | inl made ↦ rw (made, gateway_ll_create) (with_broker-Catalog properties _ _ libs insts)
  ]
