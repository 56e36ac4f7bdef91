-- ===== src/Gateway/Destroy.antt =====
-- core/src/gateway_ll.c: gateway_destroy_internal and Gateway_LL_Destroy.
use azure_iot_gateway_sdk.Base.{
  ℕ, zero, suc, Bool, true, false, Option, some, none, [], ◌∷◌, length, if◌then◌else◌,
}
use azure_iot_gateway_sdk.Broker.Create.{broker_destroy}
use azure_iot_gateway_sdk.Gateway.Env.{
  gateway_destroyed, G, pure, ◌>>=◌, ◌>>◌, lift, free, vector_destroy, event_system_destroy, report,
}
use azure_iot_gateway_sdk.Gateway.State.{Gateway}
use azure_iot_gateway_sdk.Gateway.Links.{gateway_removelink_internal}
use azure_iot_gateway_sdk.Gateway.Modules.{gateway_removemodule_internal}

unfoldable pub destroy_events : Gateway → G Gateway
destroy_events gw =
    if gw.event_system
    then (do
      report gateway_destroyed
      event_system_destroy
      pure (record gw { event_system = false }))
    else pure gw

-- The loop that removes the link in front, on fuel.
unfoldable pub remove_front_links : ℕ → Gateway → G Gateway
remove_front_links zero gw = pure gw
remove_front_links (suc n) gw = elim gw.links [
  | [] ↦ pure gw
  | ◌∷◌ link rest ↦ do
    gw' ← gateway_removelink_internal (λ l. true) gw link
    remove_front_links n gw'
]

-- Whether the vector of links is there is the first argument.
unfoldable pub destroy_links : Bool → Gateway → G Gateway
destroy_links has_links gw =
    if has_links
    then (do gw' ← remove_front_links (length gw.links) gw; vector_destroy; pure gw')
    else pure gw

-- The loop that removes the module in front, on fuel.
unfoldable pub remove_front_modules : ℕ → Gateway → G Gateway
remove_front_modules zero gw = pure gw
remove_front_modules (suc n) gw = elim gw.modules [
  | [] ↦ pure gw
  | ◌∷◌ d rest ↦ do gw' ← gateway_removemodule_internal (λ m. true) gw d; remove_front_modules n gw'
]

unfoldable pub destroy_modules : Bool → Gateway → G Gateway
destroy_modules has_modules gw =
    if has_modules
    then (do gw' ← remove_front_modules (length gw.modules) gw; vector_destroy; pure gw')
    else pure gw

-- The gateway as it is when its memory is freed. The flags say which of the two vectors are there: they
-- are null pointers until Gateway_LL_Create has made them.
unfoldable pub gateway_destroy_internal : (has_modules has_links : Bool) → Gateway → G Gateway
gateway_destroy_internal has_modules has_links gw = do
  gw1 ← destroy_events gw
  gw2 ← destroy_links has_links gw1
  gw3 ← destroy_modules has_modules gw2
  b ← lift (broker_destroy gw3.broker)
  free
  pure (record gw3 { broker = b })

-- Gateway_LL_Destroy. Nothing is left.
unfoldable pub gateway_ll_destroy : Option Gateway → G (Option Gateway)
gateway_ll_destroy none = pure none
gateway_ll_destroy (some gw) = do _ ← gateway_destroy_internal true true gw; pure none
