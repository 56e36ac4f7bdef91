-- ===== src/Gateway/History.antt =====
-- Any history of the calls on a gateway (core/src/gateway_ll.c).
use azure_iot_gateway_sdk.Base.{
  ℕ, refl, ◌∙◌, inl, inr, Bool, true, Option, some, none, List, [], ◌∷◌, ◌==◌, Bool-cases,
  Option-cases, arith,
}
use azure_iot_gateway_sdk.Gateway.Env.{Env, module_start}
use azure_iot_gateway_sdk.Gateway.State.{
  Name, ModuleData, Gateway, LinkEntry, ModulesEntry, find_if, module_name_find, module_data_find,
  link_data_find,
}
use azure_iot_gateway_sdk.Gateway.Links.{gateway_addlink_internal, gateway_removelink_internal}
use azure_iot_gateway_sdk.Gateway.Modules.{
  gateway_addmodule_internal, gateway_removemodule_internal,
}
use azure_iot_gateway_sdk.Gateway.Destroy.{gateway_ll_destroy}
use azure_iot_gateway_sdk.Gateway.Create.{GatewayProperties, gateway_ll_create}
use azure_iot_gateway_sdk.Gateway.Api.{
  start_modules, gateway_ll_start, gateway_ll_add_module, gateway_ll_start_module, remove_found,
  gateway_ll_remove_module, gateway_ll_remove_module_by_name, gateway_ll_add_link,
  remove_found_link, gateway_ll_remove_link,
}
use azure_iot_gateway_sdk.Gateway.LinkEffects.{
  Same, gateway_addlink_internal-LinkAdded, gateway_removelink_internal-LinkErased,
}
use azure_iot_gateway_sdk.Gateway.ModuleEffects.{gateway_addmodule_internal-ModuleAdded}
use azure_iot_gateway_sdk.Gateway.RemoveEffects.{gateway_removemodule_internal-ModuleRemoved}
use azure_iot_gateway_sdk.Gateway.Catalog.{
  WellFormed, kept-WellFormed, LinkAdded-WellFormed, LinkErased-WellFormed, ModuleAdded-WellFormed,
  ModuleRemoved-WellFormed,
}
use azure_iot_gateway_sdk.Gateway.Teardown.{gateway_destroy_internal-returns}
use azure_iot_gateway_sdk.Gateway.Creation.{Catalog, create-Catalog}

pub data GatewayCall : Type 0 where
  starts destroys : GatewayCall
  adds_module : Option ModulesEntry → GatewayCall
  starts_module removes_module : ℕ → GatewayCall
  removes_by_name : Option Name → GatewayCall
  adds_link removes_link : Option LinkEntry → GatewayCall

-- The gateway after the call; what the call returns is not kept.
unfoldable pub gateway_call : GatewayCall → Option Gateway × Env → Option Gateway × Env
gateway_call starts (gw, e) = (gw, (gateway_ll_start gw e).1)
gateway_call destroys (gw, e) = gateway_ll_destroy gw e
gateway_call (adds_module entry) (gw, e) = let r = gateway_ll_add_module gw entry e in (r.0.1, r.1)
gateway_call (starts_module handle) (gw, e) = (gw, (gateway_ll_start_module gw handle e).1)
gateway_call (removes_module handle) (gw, e) = gateway_ll_remove_module gw handle e
gateway_call (removes_by_name name) (gw, e) =
    let r = gateway_ll_remove_module_by_name gw name e in (r.0.1, r.1)
gateway_call (adds_link entry) (gw, e) = let r = gateway_ll_add_link gw entry e in (r.0.1, r.1)
gateway_call (removes_link entry) (gw, e) = gateway_ll_remove_link gw entry e

pub gateway_run : List GatewayCall → Option Gateway × Env → Option Gateway × Env
gateway_run [] s = s
gateway_run (c ∷ cs) s = gateway_run cs (gateway_call c s)

module_start-Same : (library handle : ℕ) (e : Env) → Same e (module_start library handle e).1
module_start-Same library handle e = elim (Bool-cases (e.has_start library)) [
  | inl there ↦ rw there (refl, refl)
  | inr null ↦ rw null (refl, refl)
]

start_modules-Same : (ds : List ModuleData) (e : Env) → Same e (start_modules ds e).1
unfolding start_modules
start_modules-Same [] e = (refl, refl)
start_modules-Same (d ∷ ds) e =
    let (libs, insts) = module_start-Same d.module_library_handle d.module_handle e in
    let (libs', insts') =
      start_modules-Same ds (module_start d.module_library_handle d.module_handle e).1 in
    (libs' ∙ libs, insts' ∙ insts)

module _ (libraries instances : ℕ) (gw : Gateway) (e : Env)
    (wf : WellFormed libraries instances gw e) where
  restate : (e' : Env) → Same e e' → WellFormed libraries instances gw e'
  restate e' same = kept-WellFormed libraries instances gw e wf gw e' refl wf.ends same

  start-WellFormed : WellFormed libraries instances gw (gateway_ll_start (some gw) e).1
  unfolding gateway_ll_start
  start-WellFormed = restate _ (start_modules-Same gw.modules e)

  start_module-WellFormed :
      (handle : ℕ)
      → WellFormed libraries instances gw (gateway_ll_start_module (some gw) handle e).1
  unfolding gateway_ll_start_module
  start_module-WellFormed handle =
      elim (Option-cases (find_if (module_data_find handle) gw.modules)) [
        | inl missing ↦ rw (missing, gateway_ll_start_module) wf
        | inr (d, found) ↦
            rw (found, gateway_ll_start_module)
              (restate _ (module_start-Same d.module_library_handle d.module_handle e))
      ]

  add_module-Catalog :
      (entry : Option ModulesEntry)
      → let r = gateway_ll_add_module (some gw) entry e in Catalog libraries instances (r.0.1, r.1)
  unfolding gateway_ll_add_module
  add_module-Catalog none = wf
  add_module-Catalog (some entry) =
      let r = gateway_addmodule_internal gw entry.module_path entry.module_name e in
      let wf' =
        ModuleAdded-WellFormed libraries instances gw e wf entry.module_name r
          (gateway_addmodule_internal-ModuleAdded gw entry.module_path entry.module_name e) in
      elim (Bool-cases (r.0.0 == 0)) [
        | inl failed ↦ rw (failed, gateway_ll_add_module) wf'
        | inr added ↦
            rw (added, gateway_ll_add_module)
              (kept-WellFormed libraries instances r.0.1 r.1 wf' _ _ refl wf'.ends (refl, refl))
      ]

  remove_found-WellFormed :
      (p : ModuleData → Bool)
      → let r = remove_found p gw e in WellFormed libraries instances r.0.1 r.1
  unfolding remove_found
  remove_found-WellFormed p = elim (Option-cases (find_if p gw.modules)) [
    | inl missing ↦ rw (missing, remove_found) wf
    | inr (d, found) ↦
        let r = gateway_removemodule_internal p gw d e in
        let wf' =
          ModuleRemoved-WellFormed libraries instances gw e wf p d r found
            (gateway_removemodule_internal-ModuleRemoved p gw d e) in
        rw (found, remove_found)
          (kept-WellFormed libraries instances r.0 r.1 wf' _ _ refl wf'.ends (refl, refl))
  ]

  add_link-Catalog :
      (entry : Option LinkEntry)
      → let r = gateway_ll_add_link (some gw) entry e in Catalog libraries instances (r.0.1, r.1)
  unfolding gateway_ll_add_link
  add_link-Catalog none = wf
  add_link-Catalog (some entry) =
      let r = gateway_addlink_internal gw entry e in
      let wf' =
        LinkAdded-WellFormed libraries instances gw e wf entry r
          (gateway_addlink_internal-LinkAdded gw entry e) in
      elim (Bool-cases r.0.0) [
        | inr failed ↦ rw (failed, gateway_ll_add_link) wf'
        | inl added ↦
            rw (added, gateway_ll_add_link)
              (kept-WellFormed libraries instances r.0.1 r.1 wf' _ _ refl wf'.ends (refl, refl))
      ]

  remove_link-Catalog :
      (entry : Option LinkEntry)
      → Catalog libraries instances (gateway_ll_remove_link (some gw) entry e)
  unfolding gateway_ll_remove_link remove_found_link
  remove_link-Catalog none = wf
  remove_link-Catalog (some entry) = elim (Option-cases (find_if (link_data_find entry) gw.links)) [
    | inl missing ↦ rw (missing, remove_found_link) wf
    | inr (link, found) ↦
        let r = gateway_removelink_internal (link_data_find entry) gw link e in
        let wf' =
          LinkErased-WellFormed libraries instances gw e wf (link_data_find entry) r
            (gateway_removelink_internal-LinkErased (link_data_find entry) gw link e) in
        rw (found, remove_found_link)
          (kept-WellFormed libraries instances r.0 r.1 wf' _ _ refl wf'.ends (refl, refl))
  ]

  call-Catalog : (c : GatewayCall) → Catalog libraries instances (gateway_call c (some gw, e))
  unfolding gateway_call gateway_ll_destroy gateway_ll_remove_module
      gateway_ll_remove_module_by_name
  call-Catalog starts = start-WellFormed
  call-Catalog destroys =
      let (_, _, libs, insts) =
        gateway_destroy_internal-returns libraries instances true true gw e
          (λ x. absurd (ground arith)) wf in
      (libs, insts)
  call-Catalog (adds_module entry) = add_module-Catalog entry
  call-Catalog (starts_module handle) = start_module-WellFormed handle
  call-Catalog (removes_module handle) = remove_found-WellFormed (module_data_find handle)
  call-Catalog (removes_by_name none) = wf
  call-Catalog (removes_by_name (some name)) = remove_found-WellFormed (module_name_find name)
  call-Catalog (adds_link entry) = add_link-Catalog entry
  call-Catalog (removes_link entry) = remove_link-Catalog entry

module _ (libraries instances : ℕ) where
  pub call-Catalog_any :
      (c : GatewayCall) (state : Option Gateway × Env)
      → Catalog libraries instances state
      → Catalog libraries instances (gateway_call c state)
  unfolding gateway_call gateway_ll_destroy gateway_ll_remove_module
      gateway_ll_remove_module_by_name gateway_ll_start gateway_ll_start_module
      gateway_ll_add_module gateway_ll_add_link gateway_ll_remove_link
  call-Catalog_any c (some gw, e) wf = call-Catalog libraries instances gw e wf c
  call-Catalog_any starts (none, e) h = h
  call-Catalog_any destroys (none, e) h = h
  call-Catalog_any (adds_module entry) (none, e) h = h
  call-Catalog_any (starts_module handle) (none, e) h = h
  call-Catalog_any (removes_module handle) (none, e) h = h
  call-Catalog_any (removes_by_name name) (none, e) h = h
  call-Catalog_any (adds_link entry) (none, e) h = h
  call-Catalog_any (removes_link entry) (none, e) h = h

  run-Catalog :
      (cs : List GatewayCall) (state : Option Gateway × Env)
      → Catalog libraries instances state
      → Catalog libraries instances (gateway_run cs state)
  unfolding gateway_run
  run-Catalog [] state h = h
  run-Catalog (c ∷ cs) state h = run-Catalog cs (gateway_call c state) (call-Catalog_any c state h)

-- After Gateway_LL_Create with any properties and any history of the calls on the gateway, with any
-- arguments (a link to remove has both names) and whichever platform, library and broker calls fail:
-- the names of the modules differ and none is "*", every link is between modules of the gateway, and
-- one library and one instance are held for each module; once the gateway is destroyed or its creation
-- has failed, none is held any more.
pub gateway_run-Catalog :
    (properties : Option GatewayProperties) (cs : List GatewayCall) (e : Env)
    → Catalog e.libraries e.instances (gateway_run cs (gateway_ll_create properties e))
gateway_run-Catalog properties cs e =
    run-Catalog e.libraries e.instances cs (gateway_ll_create properties e)
      (create-Catalog e.libraries e.instances properties e refl refl)
