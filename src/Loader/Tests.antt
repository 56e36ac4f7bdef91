-- ===== src/Loader/Tests.antt =====
-- Runs of core/src/module_loader.c.
use azure_iot_gateway_sdk.Base.{ℕ, ◌+◌, ◌≡◌, refl, true, some, none, [], ◌∷◌}
use azure_iot_gateway_sdk.Broker.Samples.{world_holding}
use azure_iot_gateway_sdk.Gateway.Env.{Env}
use azure_iot_gateway_sdk.Gateway.State.{Name}
use azure_iot_gateway_sdk.Loader.Load.{
  ModuleApis, no_apis, has_required, check_apis, call_get_apis, with_apis, with_library,
  module_loader_load,
}
use azure_iot_gateway_sdk.Loader.Loaded.{Loaded, module_loader_load-Loaded}

abbrev env : Env
env = record {
  world = world_holding 20 10;
  handles = λ n. n + 4096;
  apis = λ library. 16;
  has_start = λ library. true;
  libraries = 2;
  instances = 2;
  vectors = 2;
  event_systems = 1;
  conditions = 0;
  json_values = 0;
  json_texts = 0;
  events = [];
  starts = [];
}

abbrev logger_name : Name
logger_name = b'l' ∷ []

abbrev four_apis : ℕ → ModuleApis → ModuleApis
four_apis library apis = record {
  module_create = library + 1;
  module_destroy = library + 2;
  module_receive = library + 3;
  module_start = library + 4;
}

-- A library that leaves Module_Receive out.
abbrev two_apis : ℕ → ModuleApis → ModuleApis
two_apis library apis = record apis { module_create = library + 1; module_destroy = library + 2 }

loads :
    (module_loader_load four_apis (some logger_name) env).0
    ≡ some (record { library = 4097; apis = four_apis 4097 no_apis })
unfolding module_loader_load with_library with_apis call_get_apis check_apis has_required
loads = refl

refuses : (module_loader_load two_apis (some logger_name) env).0 ≡ none
unfolding module_loader_load with_library with_apis call_get_apis check_apis has_required
refuses = refl

module_loader_load-Loaded_example :
    Loaded four_apis env (module_loader_load four_apis (some logger_name) env)
module_loader_load-Loaded_example = module_loader_load-Loaded four_apis env (some logger_name)
