-- ===== src/Gateway/ModuleList.antt =====
-- core/src/gateway_ll.c: Gateway_LL_GetModuleList, gateway_destroymodulelist_internal and
-- Gateway_LL_DestroyModuleList.
use azure_iot_gateway_sdk.Base.{
  Bool, true, false, Option, some, none, List, [], ◌∷◌, ◌++◌, length, ltb, if◌then◌else◌,
}
use azure_iot_gateway_sdk.Base.Outcome.{Outcome, ok, fault}
use azure_iot_gateway_sdk.Gateway.Env.{
  G, pure, ◌>>=◌, ◌>>◌, malloc, free, ask, vector_create, vector_destroy,
}
use azure_iot_gateway_sdk.Gateway.State.{
  Name, ModuleData, Link, from_any, from_one, Gateway, strcmp_eq, find_if,
}

-- GATEWAY_MODULE_INFO. The vector of sources holds pointers to other infos, given here by their names;
-- `none` is a null pointer.
pub record GatewayModuleInfo : Type 0 where
  pub module_name : Name
  pub module_sources : Option (List Name)

unfoldable pub module_info_name_find : Name → GatewayModuleInfo → Bool
module_info_name_find name element = strcmp_eq element.module_name name

-- A change of the sources of the info that `VECTOR_find_if` gives.
unfoldable pub set_sources :
    Name → Option (List Name) → List GatewayModuleInfo → List GatewayModuleInfo
set_sources name sources [] = []
set_sources name sources (info ∷ infos) =
    if module_info_name_find name info
    then record info { module_sources = sources } ∷ infos
    else info ∷ set_sources name sources infos

unfoldable pub destroy_sources : Option (List Name) → G (Unit {0})
destroy_sources none = pure tt
destroy_sources (some sources) = vector_destroy

unfoldable pub gateway_destroymodulelist_internal : List GatewayModuleInfo → G (Unit {0})
gateway_destroymodulelist_internal [] = pure tt
gateway_destroymodulelist_internal (info ∷ infos) = do
  destroy_sources info.module_sources
  gateway_destroymodulelist_internal infos

unfoldable pub gateway_ll_destroy_module_list : List GatewayModuleInfo → G (Unit {0})
gateway_ll_destroy_module_list infos = do gateway_destroymodulelist_internal infos; vector_destroy

-- One info more, if its vector is there; `next` is the rest of the loop.
unfoldable pub add_info :
    Bool → ModuleData → G (Bool × List GatewayModuleInfo) → G (Bool × List GatewayModuleInfo)
add_info false d next = pure (false, [])
add_info true d next = do
  (done, infos) ← next
  pure (done, record { module_name = d.module_name; module_sources = some [] } ∷ infos)

-- The first pass, up to the first failure; the infos behind that have no vector.
unfoldable pub create_infos : List ModuleData → G (Bool × List GatewayModuleInfo)
create_infos [] = pure (true, [])
create_infos (d ∷ ds) = do created ← vector_create; add_info created d (create_infos ds)

-- `VECTOR_push_back` on a null pointer fails.
unfoldable pub push_source :
    Name → Name → Option (List Name) → List GatewayModuleInfo → G (Bool × List GatewayModuleInfo)
push_source source sink none infos = pure (false, infos)
push_source source sink (some sources) infos = do
  pushed ← ask
  pure (pushed, if pushed then set_sources sink (some (sources ++ source ∷ [])) infos else infos)

abbrev pub Pass : Type 0
Pass = Outcome (Bool × List GatewayModuleInfo)

-- What is done with one link once its sink's info and, if it has one, its source's info are found.
-- A failed `assert` is undefined.
unfoldable pub link_any : Name → Option GatewayModuleInfo → List GatewayModuleInfo → G Pass
link_any sink none infos = pure fault
link_any sink (some info) infos = do
  destroy_sources info.module_sources
  pure (ok (true, set_sources sink none infos))

unfoldable pub link_one :
    Name
    → Name
    → Option GatewayModuleInfo
    → Option GatewayModuleInfo
    → List GatewayModuleInfo
    → G Pass
link_one source sink none found infos = pure fault
link_one source sink (some info) none infos = pure fault
link_one source sink (some info) (some src) infos = do
  result ← push_source src.module_name sink info.module_sources infos
  pure (ok result)

unfoldable pub link_info : Link → List GatewayModuleInfo → G Pass
link_info (from_any sink) infos =
    link_any sink.module_name (find_if (module_info_name_find sink.module_name) infos) infos
link_info (from_one source sink) infos =
    link_one source.module_name sink.module_name
      (find_if (module_info_name_find sink.module_name) infos)
      (find_if (module_info_name_find source.module_name) infos) infos

unfoldable pub go_on_pass : Pass → (List GatewayModuleInfo → G Pass) → G Pass
go_on_pass (ok (true, infos)) next = next infos
go_on_pass (ok (false, infos)) next = pure (ok (false, infos))
go_on_pass Outcome.fail next = pure fault
go_on_pass fault next = pure fault

-- The second pass, up to the first failure.
unfoldable pub link_infos : List Link → List GatewayModuleInfo → G Pass
link_infos [] infos = pure (ok (true, infos))
link_infos (l ∷ ls) infos = do result ← link_info l infos; go_on_pass result (link_infos ls)

-- After a pass: the list, or all is destroyed.
unfoldable pub leave_list :
    Bool → List GatewayModuleInfo → G (Outcome (Option (List GatewayModuleInfo)))
leave_list true infos = do free; pure (ok (some infos))
leave_list false infos = do gateway_ll_destroy_module_list infos; free; pure (ok none)

unfoldable pub leave_pass : Pass → G (Outcome (Option (List GatewayModuleInfo)))
leave_pass (ok (done, infos)) = leave_list done infos
leave_pass Outcome.fail = pure fault
leave_pass fault = pure fault

unfoldable pub fill_list :
    Bool → List GatewayModuleInfo → List Link → G (Outcome (Option (List GatewayModuleInfo)))
fill_list false infos links = leave_list false infos
fill_list true infos links = do result ← link_infos links infos; leave_pass result

unfoldable pub resize_list : Gateway → G (Outcome (Option (List GatewayModuleInfo)))
resize_list gw = do
  resize ← malloc
  if resize
      then (do
        pushed ← ask
        if pushed
            then (do (done, infos) ← create_infos gw.modules; fill_list done infos gw.links)
            else (do vector_destroy; free; pure (ok none)))
      else (do vector_destroy; pure (ok none))

unfoldable pub gateway_ll_get_module_list :
    Option Gateway → G (Outcome (Option (List GatewayModuleInfo)))
gateway_ll_get_module_list none = pure (ok none)
gateway_ll_get_module_list (some gw) = do
  result ← vector_create
  if result
      then (if ltb 0 (length gw.modules) then resize_list gw else pure (ok (some [])))
      else pure (ok none)
