-- ===== src/Gateway/Modules.antt =====
-- core/src/gateway_ll.c: gateway_addmodule_internal and gateway_removemodule_internal.
use azure_iot_gateway_sdk.Base.{
  ℕ, zero, suc, Bool, true, false, ◌||◌, Option, some, none, [], ◌∷◌, ◌++◌, length, ◌==◌,
  if◌then◌else◌,
}
use azure_iot_gateway_sdk.Broker.State.{Module}
use azure_iot_gateway_sdk.Broker.Create.{broker_inc_ref, broker_destroy}
use azure_iot_gateway_sdk.Broker.Modules.{broker_add_module, broker_remove_module}
use azure_iot_gateway_sdk.Gateway.Env.{
  G, pure, ◌>>=◌, ◌>>◌, lift, malloc, free, ask, load, unload, module_apis, module_create,
  module_destroy,
}
use azure_iot_gateway_sdk.Gateway.State.{
  Name, ModuleData, Gateway, gateway_all, strcmp_eq, find_if, erase_if, link_name_both_find,
  check_if_module_exists,
}
use azure_iot_gateway_sdk.Gateway.BrokerLinks.{
  is_ok, remove_module_from_any_source, add_module_to_any_source,
}
use azure_iot_gateway_sdk.Gateway.Links.{gateway_removelink_internal}

-- The module is in the vector: the links from any source are made, or all is undone.
unfoldable pub link_new : Gateway → Module → ModuleData → G (ℕ × Gateway)
link_new gw m new = do
  (done, b) ←
      lift (add_module_to_any_source gw.links (gw.modules ++ new ∷ []) new.module_handle gw.broker)
  if done
      then pure (new.module_handle, record gw { broker = b; modules = gw.modules ++ new ∷ [] })
      else (do
        b1 ← lift (broker_destroy b)
        (_, b2) ← lift (broker_remove_module b1 (some m))
        free
        free
        module_destroy
        unload
        pure (0, record gw { broker = b2 }))

-- The name is copied.
unfoldable pub store_new : Gateway → Module → ModuleData → G (ℕ × Gateway)
store_new gw m new = do
  pushed ← ask
  if pushed then link_new (record gw { broker = broker_inc_ref gw.broker }) m new else (do
    b1 ← lift (broker_destroy (broker_inc_ref gw.broker))
    free
    free
    (_, b2) ← lift (broker_remove_module b1 (some m))
    module_destroy
    unload
    pure (0, record gw { broker = b2 }))

-- The module is attached to the broker.
unfoldable pub name_new : Gateway → Module → ModuleData → G (ℕ × Gateway)
name_new gw m new = do
  copied ← malloc
  if copied then store_new gw m new else (do
    free
    (_, b) ← lift (broker_remove_module gw.broker (some m))
    module_destroy
    unload
    pure (0, record gw { broker = b }))

-- The instance is made.
unfoldable pub attach_new : Gateway → Module → ModuleData → G (ℕ × Gateway)
attach_new gw m new = do
  (result, b) ← lift (broker_add_module gw.broker (some m))
  if is_ok result
      then name_new (record gw { broker = b }) m new
      else (do free; module_destroy; unload; pure (0, record gw { broker = b }))

-- The library is loaded.
unfoldable pub create_new : Gateway → ℕ → Name → G (ℕ × Gateway)
create_new gw library name = do
  apis ← module_apis library
  handle ← module_create
  if handle == 0
      then (do free; unload; pure (0, gw))
      else attach_new gw (record { module_apis = apis; module_handle = handle })
          (record { module_name = name; module_library_handle = library; module_handle = handle })

unfoldable pub load_new : Gateway → Name → G (ℕ × Gateway)
load_new gw name = do
  new_module_data ← malloc
  if new_module_data
      then (do
        library ← load
        if library == 0 then (do free; pure (0, gw)) else create_new gw library name)
      else pure (0, gw)

-- The handle of the new module, or 0 for NULL.
unfoldable pub gateway_addmodule_internal : Gateway → Option Name → Option Name → G (ℕ × Gateway)
gateway_addmodule_internal gw none name = pure (0, gw)
gateway_addmodule_internal gw (some path) none = pure (0, gw)
gateway_addmodule_internal gw (some path) (some name) =
    elim (strcmp_eq name gateway_all || check_if_module_exists gw name) [
      | true ↦ pure (0, gw)
      | false ↦ load_new gw name
    ]

-- The loop that removes the links that name the module, on fuel.
unfoldable pub remove_links_of : ℕ → Name → Gateway → G Gateway
remove_links_of zero name gw = pure gw
remove_links_of (suc n) name gw = elim (find_if (link_name_both_find name) gw.links) [
  | none ↦ pure gw
  | some link ↦ do
    gw' ← gateway_removelink_internal (link_name_both_find name) gw link
    remove_links_of n name gw'
]

-- The module that is removed, `d`, is the first that fits `p`. The module's structure for the broker
-- has no APIs.
unfoldable pub gateway_removemodule_internal :
    (ModuleData → Bool) → Gateway → ModuleData → G Gateway
gateway_removemodule_internal p gw d = do
  b ← lift (remove_module_from_any_source gw.links gw.modules d.module_handle gw.broker)
  gw' ← remove_links_of (length gw.links) d.module_name (record gw { broker = b })
  free
  (_, b1) ← lift (
      broker_remove_module gw'.broker
        (some (record { module_apis = 0; module_handle = d.module_handle })))
  b2 ← lift (broker_destroy b1)
  module_destroy
  unload
  free
  pure (record gw' { broker = b2; modules = erase_if p gw'.modules })
