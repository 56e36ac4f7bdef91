-- ===== src/Gateway/BrokerLinks.antt =====
-- core/src/gateway_ll.c: the helpers that change the broker's links alone, add_one_link_to_broker,
-- remove_one_link_from_broker, add_module_to_any_source, remove_module_from_any_source and the loops
-- of add_any_source_link and remove_any_source_link.
use azure_iot_gateway_sdk.Base.{ℕ, Bool, true, false, Option, some, none, List, [], ◌∷◌, ◌==◌}
use azure_iot_gateway_sdk.Broker.World.{M, pure, ◌>>=◌}
use azure_iot_gateway_sdk.Broker.State.{
  BrokerResult, broker_ok, broker_error, broker_add_link_error, broker_remove_link_error,
  broker_invalidarg, Broker,
}
use azure_iot_gateway_sdk.Broker.Links.{broker_add_link, broker_remove_link}
use azure_iot_gateway_sdk.Gateway.State.{
  ModuleData, Link, from_any, from_one, find_if, module_name_find,
}

abbrev pub is_ok : BrokerResult → Bool
is_ok broker_ok = true
is_ok broker_error = false
is_ok broker_add_link_error = false
is_ok broker_remove_link_error = false
is_ok broker_invalidarg = false

-- `true` is the result 0.
unfoldable pub add_one_link_to_broker : Option Broker → ℕ → ℕ → M (Bool × Option Broker)
add_one_link_to_broker b source sink = do
  (result, b') ←
      broker_add_link b (some (record { module_source_handle = source; module_sink_handle = sink }))
  pure (is_ok result, b')

unfoldable pub remove_one_link_from_broker : Option Broker → ℕ → ℕ → M (Bool × Option Broker)
remove_one_link_from_broker b source sink = do
  (result, b') ←
      broker_remove_link b
        (some (record { module_source_handle = source; module_sink_handle = sink }))
  pure (is_ok result, b')

-- The loop over the links of remove_module_from_any_source; a failure is only logged.
unfoldable pub remove_module_from_any_source :
    List Link → List ModuleData → ℕ → Option Broker → M (Option Broker)
remove_module_from_any_source [] modules handle b = pure b
remove_module_from_any_source (from_one source sink ∷ links) modules handle b =
    remove_module_from_any_source links modules handle b
remove_module_from_any_source (from_any sink ∷ links) modules handle b =
    elim (find_if (module_name_find sink.module_name) modules) [
      | none ↦ remove_module_from_any_source links modules handle b
      | some found ↦ do
        (_, b') ← remove_one_link_from_broker b handle found.module_handle
        remove_module_from_any_source links modules handle b'
    ]

-- The loop over the links of add_module_to_any_source, up to the first failure.
unfoldable pub add_to_any_sources :
    List Link → List ModuleData → ℕ → Option Broker → M (Bool × Option Broker)
add_to_any_sources [] modules handle b = pure (true, b)
add_to_any_sources (from_one source sink ∷ links) modules handle b =
    add_to_any_sources links modules handle b
add_to_any_sources (from_any sink ∷ links) modules handle b =
    elim (find_if (module_name_find sink.module_name) modules) [
      | none ↦ pure (false, b)
      | some found ↦ do
        (done, b') ← add_one_link_to_broker b handle found.module_handle
        elim done [ true ↦ add_to_any_sources links modules handle b' | false ↦ pure (false, b') ]
    ]

unfoldable pub add_module_to_any_source :
    List Link → List ModuleData → ℕ → Option Broker → M (Bool × Option Broker)
add_module_to_any_source links modules handle b = do
  (done, b') ← add_to_any_sources links modules handle b
  elim done [
    | true ↦ pure (true, b')
    | false ↦ do b'' ← remove_module_from_any_source links modules handle b'; pure (false, b'')
  ]

-- The loop over the modules of add_any_source_link, up to the first failure. The sink gets no link
-- from itself.
unfoldable pub link_all_to : List ModuleData → ℕ → Option Broker → M (Bool × Option Broker)
link_all_to [] sink b = pure (true, b)
link_all_to (m ∷ ms) sink b = elim (m.module_handle == sink) [
  | true ↦ link_all_to ms sink b
  | false ↦ do
    (done, b') ← add_one_link_to_broker b m.module_handle sink
    elim done [ true ↦ link_all_to ms sink b' | false ↦ pure (false, b') ]
]

-- The loop over the modules of remove_any_source_link.
unfoldable pub unlink_all_from : List ModuleData → ℕ → Option Broker → M (Option Broker)
unlink_all_from [] sink b = pure b
unlink_all_from (m ∷ ms) sink b = elim (m.module_handle == sink) [
  | true ↦ unlink_all_from ms sink b
  | false ↦ do
    (_, b') ← remove_one_link_from_broker b m.module_handle sink
    unlink_all_from ms sink b'
]

unfoldable pub remove_any_source_link :
    List ModuleData → ModuleData → Option Broker → M (Option Broker)
remove_any_source_link modules sink b = elim (find_if (module_name_find sink.module_name) modules) [
  | none ↦ pure b
  | some found ↦ unlink_all_from modules found.module_handle b
]
