-- ===== src/Gateway/Api.antt =====
-- core/src/gateway_ll.c: Gateway_LL_Start, Gateway_LL_AddModule, Gateway_LL_StartModule,
-- Gateway_LL_RemoveModule, Gateway_LL_RemoveModuleByName, Gateway_LL_AddLink and
-- Gateway_LL_RemoveLink. `none` is a null pointer.
use azure_iot_gateway_sdk.Base.{
  ℕ, Bool, true, false, Option, some, none, List, [], ◌∷◌, ◌==◌, if◌then◌else◌,
}
use azure_iot_gateway_sdk.Gateway.Env.{
  gateway_started, gateway_module_list_changed, G, pure, ◌>>=◌, ◌>>◌, module_start, report,
}
use azure_iot_gateway_sdk.Gateway.State.{
  Name, ModuleData, Gateway, LinkEntry, ModulesEntry, find_if, module_name_find, module_data_find,
  link_data_find,
}
use azure_iot_gateway_sdk.Gateway.Links.{gateway_addlink_internal, gateway_removelink_internal}
use azure_iot_gateway_sdk.Gateway.Modules.{
  gateway_addmodule_internal, gateway_removemodule_internal,
}

-- GATEWAY_START_RESULT and GATEWAY_ADD_LINK_RESULT
pub data StartResult : Type 0 where
  gateway_start_success gateway_start_invalid_args : StartResult

pub data AddLinkResult : Type 0 where
  gateway_add_link_success gateway_add_link_error gateway_add_link_invalid_arg : AddLinkResult

unfoldable pub start_modules : List ModuleData → G (Unit {0})
start_modules [] = pure tt
start_modules (d ∷ ds) = do module_start d.module_library_handle d.module_handle; start_modules ds

unfoldable pub gateway_ll_start : Option Gateway → G StartResult
gateway_ll_start none = pure gateway_start_invalid_args
gateway_ll_start (some gw) = do
  start_modules gw.modules
  report gateway_started
  pure gateway_start_success

unfoldable pub gateway_ll_add_module : Option Gateway → Option ModulesEntry → G (ℕ × Option Gateway)
gateway_ll_add_module none entry = pure (0, none)
gateway_ll_add_module (some gw) none = pure (0, some gw)
gateway_ll_add_module (some gw) (some entry) = do
  (handle, gw') ← gateway_addmodule_internal gw entry.module_path entry.module_name
  if handle == 0
      then pure (0, some gw')
      else (do report gateway_module_list_changed; pure (handle, some gw'))

unfoldable pub gateway_ll_start_module : Option Gateway → ℕ → G (Unit {0})
gateway_ll_start_module none handle = pure tt
gateway_ll_start_module (some gw) handle = elim (find_if (module_data_find handle) gw.modules) [
  | none ↦ pure tt
  | some d ↦ module_start d.module_library_handle d.module_handle
]

-- The module that fits is removed, and whether there is one.
unfoldable pub remove_found : (ModuleData → Bool) → Gateway → G (Bool × Gateway)
remove_found p gw = elim (find_if p gw.modules) [
  | none ↦ pure (false, gw)
  | some d ↦ do
    gw' ← gateway_removemodule_internal p gw d
    report gateway_module_list_changed
    pure (true, gw')
]

unfoldable pub gateway_ll_remove_module : Option Gateway → ℕ → G (Option Gateway)
gateway_ll_remove_module none handle = pure none
gateway_ll_remove_module (some gw) handle = do
  (_, gw') ← remove_found (module_data_find handle) gw
  pure (some gw')

-- `true` is the result 0.
unfoldable pub gateway_ll_remove_module_by_name :
    Option Gateway → Option Name → G (Bool × Option Gateway)
gateway_ll_remove_module_by_name none name = pure (false, none)
gateway_ll_remove_module_by_name (some gw) none = pure (false, some gw)
gateway_ll_remove_module_by_name (some gw) (some name) = do
  (found, gw') ← remove_found (module_name_find name) gw
  pure (found, some gw')

-- An entry of which a name is NULL is treated as no entry.
unfoldable pub gateway_ll_add_link :
    Option Gateway → Option LinkEntry → G (AddLinkResult × Option Gateway)
gateway_ll_add_link none entry = pure (gateway_add_link_invalid_arg, none)
gateway_ll_add_link (some gw) none = pure (gateway_add_link_invalid_arg, some gw)
gateway_ll_add_link (some gw) (some entry) = do
  (added, gw') ← gateway_addlink_internal gw entry
  if added
      then (do report gateway_module_list_changed; pure (gateway_add_link_success, some gw'))
      else pure (gateway_add_link_error, some gw')

unfoldable pub remove_found_link : LinkEntry → Gateway → G Gateway
remove_found_link entry gw = elim (find_if (link_data_find entry) gw.links) [
  | none ↦ pure gw
  | some link ↦ do
    gw' ← gateway_removelink_internal (link_data_find entry) gw link
    report gateway_module_list_changed
    pure gw'
]

-- The entry has both names: they are given to strcmp unchecked, so a NULL name has no meaning here.
unfoldable pub gateway_ll_remove_link : Option Gateway → Option LinkEntry → G (Option Gateway)
gateway_ll_remove_link none entry = pure none
gateway_ll_remove_link (some gw) none = pure (some gw)
gateway_ll_remove_link (some gw) (some entry) = do gw' ← remove_found_link entry gw; pure (some gw')
