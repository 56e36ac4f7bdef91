-- ===== src/Broker/Samples.antt =====
-- A platform for core/src/broker.c on which every call succeeds, and small brokers on it.
use azure_iot_gateway_sdk.Base.{
  ℕ, zero, suc, ◌≡◌, refl, Option, some, List, [], ◌∷◌, length, true, arith,
}
use azure_iot_gateway_sdk.Broker.World.{World}
use azure_iot_gateway_sdk.Broker.State.{Module, ModuleInfo, Topic, Broker, LinkData}
use azure_iot_gateway_sdk.Broker.Quit.{IsGuid}

abbrev pub twelve : List ℕ → List ℕ
twelve bytes = 48 ∷ 49 ∷ 50 ∷ 51 ∷ 52 ∷ 53 ∷ 54 ∷ 55 ∷ 56 ∷ 57 ∷ 97 ∷ 98 ∷ bytes

abbrev pub sample_guid : Topic
sample_guid = twelve (twelve (twelve []))

pub sample_guid-IsGuid : IsGuid sample_guid
sample_guid-IsGuid = record { long = refl; text = ground arith }

-- `held` is what is held of each kind.
abbrev pub world_holding : ℕ → ℕ → World
world_holding memory held = record {
  oracle = λ n. true;
  guids = λ n. sample_guid;
  calls = 0;
  memory = memory;
  locks = held;
  strings = held;
  sockets = held;
  threads = held;
  lists = 1;
  buffers = 0;
  sent = [];
}

abbrev pub sample_module : Module
sample_module = record { module_apis = 16; module_handle = 4096 }

abbrev pub other_module : Module
other_module = record { module_apis = 16; module_handle = 8192 }

abbrev pub info_of : Module → ModuleInfo
info_of m = record { module_data = m; quit_message_guid = sample_guid; topics = sample_guid ∷ [] }

abbrev pub empty_broker : Broker
empty_broker = record { refs = 1; modules = []; url = [] }

abbrev pub two_modules : Broker
two_modules = record empty_broker { modules = info_of sample_module ∷ info_of other_module ∷ [] }

abbrev pub sample_link : LinkData
sample_link = record { module_source_handle = 4096; module_sink_handle = 8192 }

-- nn_allocmsg that always gives a buffer.
abbrev pub zeros : ℕ → List ℕ
zeros zero = []
zeros (suc n) = 0 ∷ zeros n

pub length-zeros : (n : ℕ) → length (zeros n) ≡ n
length-zeros zero = refl
length-zeros (suc n) = omega (arith, length-zeros n)

abbrev pub some_bytes : ℕ → Option (List ℕ)
some_bytes n = some (zeros n)

pub sized : (n : ℕ) (bytes : List ℕ) → some_bytes n ≡ some bytes → length bytes ≡ n
sized n bytes e = ground (arith, length-zeros n)
