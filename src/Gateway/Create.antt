-- ===== src/Gateway/Create.antt =====
-- core/src/gateway_ll.c: Gateway_LL_Create.
use azure_iot_gateway_sdk.Base.{
  Bool, true, false, not, Option, some, none, List, [], ◌∷◌, ◌==◌, if◌then◌else◌,
}
use azure_iot_gateway_sdk.Broker.State.{Broker}
use azure_iot_gateway_sdk.Broker.Create.{broker_create}
use azure_iot_gateway_sdk.Gateway.Env.{
  gateway_created, gateway_module_list_changed, G, pure, ◌>>=◌, ◌>>◌, lift, malloc, vector_create,
  event_system_init, report,
}
use azure_iot_gateway_sdk.Gateway.State.{Gateway, LinkEntry, ModulesEntry}
use azure_iot_gateway_sdk.Gateway.Links.{gateway_addlink_internal}
use azure_iot_gateway_sdk.Gateway.Modules.{gateway_addmodule_internal}
use azure_iot_gateway_sdk.Gateway.Destroy.{gateway_destroy_internal}

-- GATEWAY_PROPERTIES
pub record GatewayProperties : Type 0 where
  pub gateway_modules : Option (List ModulesEntry)
  pub gateway_links : Option (List LinkEntry)

-- The memory of the gateway after `memset`.
abbrev pub zeroed : Gateway
zeroed = record { broker = none; event_system = false; modules = []; links = [] }

-- The gateway is destroyed and NULL is returned.
unfoldable pub give_up : (has_modules has_links : Bool) → Gateway → G (Option Gateway)
give_up has_modules has_links gw = do
  _ ← gateway_destroy_internal has_modules has_links gw
  pure none

-- The loops over the entries go on while the last one was added.
unfoldable pub go_on : Bool → Gateway → G (Bool × Gateway) → G (Bool × Gateway)
go_on false gw rest = pure (false, gw)
go_on true gw rest = rest

-- Modules are added until one fails.
unfoldable pub add_modules : List ModulesEntry → Gateway → G (Bool × Gateway)
add_modules [] gw = pure (true, gw)
add_modules (entry ∷ entries) gw = do
  (handle, gw') ← gateway_addmodule_internal gw entry.module_path entry.module_name
  go_on (not (handle == 0)) gw' (add_modules entries gw')

-- Links are added until one fails.
unfoldable pub add_links : List LinkEntry → Gateway → G (Bool × Gateway)
add_links [] gw = pure (true, gw)
add_links (entry ∷ entries) gw = do
  (added, gw') ← gateway_addlink_internal gw entry
  go_on added gw' (add_links entries gw')

unfoldable pub init_events : Gateway → G (Option Gateway)
init_events gw = do
  event_system ← event_system_init
  if event_system
      then (do
        report gateway_created
        report gateway_module_list_changed
        pure (some (record gw { event_system = true })))
      else give_up true true gw

unfoldable pub fill_links : Option (List LinkEntry) → Gateway → G (Option Gateway)
fill_links none gw = init_events gw
fill_links (some entries) gw = do
  (added, gw') ← add_links entries gw
  if added then init_events gw' else give_up true true gw'

-- Without a vector of modules the links are not read.
unfoldable pub fill_modules :
    Option (List ModulesEntry) → Option (List LinkEntry) → Gateway → G (Option Gateway)
fill_modules none links gw = init_events gw
fill_modules (some entries) links gw = do
  (added, gw') ← add_modules entries gw
  if added then fill_links links gw' else give_up true true gw'

unfoldable pub fill_gateway : Option GatewayProperties → Gateway → G (Option Gateway)
fill_gateway none gw = init_events gw
fill_gateway (some properties) gw =
    fill_modules properties.gateway_modules properties.gateway_links gw

unfoldable pub with_broker : Option GatewayProperties → Option Broker → G (Option Gateway)
with_broker properties none = give_up false false zeroed
with_broker properties (some b) = do
  modules ← vector_create
  if modules
      then (do
        links ← vector_create
        if links
            then fill_gateway properties (record zeroed { broker = some b })
            else give_up true false (record zeroed { broker = some b }))
      else give_up false false (record zeroed { broker = some b })

unfoldable pub gateway_ll_create : Option GatewayProperties → G (Option Gateway)
gateway_ll_create properties = do
  gateway ← malloc
  if gateway then (do b ← lift broker_create; with_broker properties b) else pure none
