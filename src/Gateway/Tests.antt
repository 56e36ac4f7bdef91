-- ===== src/Gateway/Tests.antt =====
-- Runs of core/src/gateway_ll.c on a small gateway.
use azure_iot_gateway_sdk.Base.{none, ◌+◌, ◌≡◌, refl, inl, inr, true, some, List, [], ◌∷◌, arith}
use azure_iot_gateway_sdk.Broker.Samples.{world_holding, two_modules}
use azure_iot_gateway_sdk.Gateway.Env.{Env}
use azure_iot_gateway_sdk.Gateway.State.{
  from_any, Name, ModuleData, from_one, Gateway, LinkEntry, gateway_all, strcmp_eq,
  module_data_find,
}
use azure_iot_gateway_sdk.Gateway.Links.{gateway_addlink_internal}
use azure_iot_gateway_sdk.Gateway.Modules.{
  gateway_addmodule_internal, gateway_removemodule_internal,
}
use azure_iot_gateway_sdk.Gateway.Destroy.{gateway_destroy_internal}
use azure_iot_gateway_sdk.Gateway.Create.{GatewayProperties, gateway_ll_create}
use azure_iot_gateway_sdk.Gateway.LinkEffects.{LinkAdded, gateway_addlink_internal-LinkAdded}
use azure_iot_gateway_sdk.Gateway.ModuleEffects.{
  ModuleAdded, gateway_addmodule_internal-ModuleAdded,
}
use azure_iot_gateway_sdk.Gateway.RemoveEffects.{
  ModuleRemoved, gateway_removemodule_internal-ModuleRemoved,
}
use azure_iot_gateway_sdk.Gateway.Catalog.{WellFormed}
use azure_iot_gateway_sdk.Gateway.ModuleList.{gateway_ll_get_module_list}
use azure_iot_gateway_sdk.Gateway.Listing.{Lists, gateway_ll_get_module_list-Lists}
use azure_iot_gateway_sdk.Base.Outcome.{ok}
use azure_iot_gateway_sdk.Gateway.Parson.{Parson}
use azure_iot_gateway_sdk.Gateway.Json.{parse_json_internal}
use azure_iot_gateway_sdk.Gateway.CreateJson.{gateway_create_from_json}
use azure_iot_gateway_sdk.Gateway.Document.{DocumentRead, parse_json_internal-DocumentRead}
use azure_iot_gateway_sdk.Gateway.GivenBack.{GivenBack, parse_json_internal-GivenBack}
use azure_iot_gateway_sdk.Gateway.FromFile.{Created, gateway_create_from_json-Created}
use azure_iot_gateway_sdk.Gateway.Mixed.{gateway_ll_get_module_list-none}
use azure_iot_gateway_sdk.Gateway.Teardown.{gateway_destroy_internal-returns}
use azure_iot_gateway_sdk.Gateway.Creation.{Catalog}
use azure_iot_gateway_sdk.Gateway.History.{
  GatewayCall, adds_module, removes_by_name, adds_link, gateway_run, gateway_run-Catalog,
}

abbrev env : Env
env = record {
  world = world_holding 20 10;
  handles = λ n. n + 4096;
  apis = λ library. 16;
  has_start = λ library. true;
  libraries = 2;
  instances = 2;
  vectors = 2;
  event_systems = 1;
  conditions = 0;
  json_values = 0;
  json_texts = 0;
  events = [];
  starts = [];
}

abbrev name_a : Name
name_a = b'a' ∷ []

abbrev name_b : Name
name_b = b'b' ∷ []

abbrev module_a : ModuleData
module_a = record { module_name = name_a; module_library_handle = 1; module_handle = 4096 }

abbrev module_b : ModuleData
module_b = record { module_name = name_b; module_library_handle = 2; module_handle = 8192 }

abbrev gateway : Gateway
gateway = record {
  broker = some two_modules;
  event_system = true;
  modules = module_a ∷ module_b ∷ [];
  links = from_one module_a module_b ∷ [];
}

abbrev any_to_b : LinkEntry
any_to_b = record { module_source = gateway_all; module_sink = name_b }

abbrev one_module : GatewayProperties
one_module = record {
  gateway_modules = some (record { module_path = some name_a; module_name = some name_a } ∷ []);
  gateway_links = some (record { module_source = gateway_all; module_sink = name_a } ∷ []);
}

abbrev some_calls : List GatewayCall
some_calls =
    adds_module (some (record { module_path = some name_b; module_name = some name_b }))
    ∷ adds_link (some any_to_b)
    ∷ removes_by_name (some name_a)
    ∷ []

gateway-WellFormed : WellFormed 0 0 gateway env
unfolding strcmp_eq
gateway-WellFormed = record {
  libraries_eq = refl;
  instances_eq = refl;
  distinct = ((refl, tt), (tt, tt));
  no_all = (refl, (refl, tt));
  ends = ((inl refl, inr (inl refl)), tt);
}

gateway_addlink_internal-LinkAdded_example :
    LinkAdded gateway any_to_b env (gateway_addlink_internal gateway any_to_b env)
gateway_addlink_internal-LinkAdded_example = gateway_addlink_internal-LinkAdded gateway any_to_b env

gateway_addmodule_internal-ModuleAdded_example :
    ModuleAdded gateway
      (some (b'c' ∷ []))
      env
      (gateway_addmodule_internal gateway (some name_a) (some (b'c' ∷ [])) env)
gateway_addmodule_internal-ModuleAdded_example =
    gateway_addmodule_internal-ModuleAdded gateway (some name_a) (some (b'c' ∷ [])) env

gateway_removemodule_internal-ModuleRemoved_example :
    ModuleRemoved
      (module_data_find 4096)
      gateway
      module_a
      env
      (gateway_removemodule_internal (module_data_find 4096) gateway module_a env)
gateway_removemodule_internal-ModuleRemoved_example =
    gateway_removemodule_internal-ModuleRemoved (module_data_find 4096) gateway module_a env

gateway_destroy_internal-returns_example :
    ((gateway_destroy_internal true true gateway env).0.modules ≡ [])
    × ((gateway_destroy_internal true true gateway env).0.links ≡ [])
    × ((gateway_destroy_internal true true gateway env).1.libraries ≡ 0)
    × ((gateway_destroy_internal true true gateway env).1.instances ≡ 0)
gateway_destroy_internal-returns_example =
    gateway_destroy_internal-returns 0 0 true true gateway env (λ e. absurd (ground arith))
      gateway-WellFormed

gateway_run-Catalog_example :
    Catalog 2 2 (gateway_run some_calls (gateway_ll_create (some one_module) env))
gateway_run-Catalog_example = gateway_run-Catalog (some one_module) some_calls env

gateway_ll_get_module_list-Lists_example :
    Lists gateway (gateway_ll_get_module_list (some gateway) env)
gateway_ll_get_module_list-Lists_example =
    gateway_ll_get_module_list-Lists 0 0 gateway env gateway-WellFormed

-- A link from any source to `b`, and one from `a` behind it.
abbrev mixed : Gateway
mixed = record gateway { links = from_any module_b ∷ from_one module_a module_b ∷ [] }

mixed-WellFormed : WellFormed 0 0 mixed env
unfolding strcmp_eq
mixed-WellFormed = record {
  libraries_eq = refl;
  instances_eq = refl;
  distinct = ((refl, tt), (tt, tt));
  no_all = (refl, (refl, tt));
  ends = (inr (inl refl), ((inl refl, inr (inl refl)), tt));
}

gateway_ll_get_module_list-none_example : (gateway_ll_get_module_list (some mixed) env).0 ≡ ok none
gateway_ll_get_module_list-none_example =
    gateway_ll_get_module_list-none 0 0 mixed env [] [] [] module_b module_a module_b
      mixed-WellFormed refl refl

-- Documents with arrays of one element, whose strings are all "a" and whose arguments are the text "a".
abbrev one_of_each : Parson
one_of_each = record {
  JsonValue = Unit {0};
  JsonObject = Unit {0};
  JsonArray = Unit {0};
  json_parse_file = λ file. some tt;
  json_value_get_object = λ v. some tt;
  json_object_get_array = λ o key. some tt;
  json_array_get_count = λ a. 1;
  json_array_get_object = λ a index. some tt;
  json_object_get_string = λ o key. some (b'a' ∷ []);
  json_object_get_value = λ o key. some tt;
  json_serialize_to_string = λ v. some (b'a' ∷ []);
}

parse_json_internal-DocumentRead_example :
    DocumentRead one_of_each tt env (parse_json_internal one_of_each tt env)
parse_json_internal-DocumentRead_example = parse_json_internal-DocumentRead one_of_each tt env

parse_json_internal-GivenBack_example : GivenBack env (parse_json_internal one_of_each tt env)
parse_json_internal-GivenBack_example = parse_json_internal-GivenBack env one_of_each tt

gateway_create_from_json-Created_example :
    Created 2 2 (gateway_create_from_json one_of_each (some (b'f' ∷ [])) env)
gateway_create_from_json-Created_example =
    gateway_create_from_json-Created one_of_each (some (b'f' ∷ [])) env
