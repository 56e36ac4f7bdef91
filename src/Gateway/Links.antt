-- ===== src/Gateway/Links.antt =====
-- core/src/gateway_ll.c: add_any_source_link, add_regular_link, gateway_addlink_internal and
-- gateway_removelink_internal.
use azure_iot_gateway_sdk.Base.{Bool, true, false, some, none, [], ◌∷◌, ◌++◌, if◌then◌else◌}
use azure_iot_gateway_sdk.Gateway.Env.{G, pure, ◌>>=◌, lift, ask}
use azure_iot_gateway_sdk.Gateway.State.{
  ModuleData, Link, from_any, from_one, Gateway, LinkEntry, gateway_all, strcmp_eq, find_if,
  erase_if, module_name_find, check_if_link_exists,
}
use azure_iot_gateway_sdk.Gateway.BrokerLinks.{
  add_one_link_to_broker, remove_one_link_from_broker, link_all_to, remove_any_source_link,
}

-- The link is put at the end, the modules are linked, and the link is erased again on a failure.
unfoldable pub any_source_with : Gateway → ModuleData → G (Bool × Gateway)
any_source_with gw sink = do
  pushed ← ask
  if pushed
      then (do
        (done, b) ← lift (link_all_to gw.modules sink.module_handle gw.broker)
        if done
            then pure (true, record gw { broker = b; links = gw.links ++ from_any sink ∷ [] })
            else (do
              b' ← lift (remove_any_source_link gw.modules sink b)
              pure (false, record gw { broker = b' })))
      else pure (false, gw)

unfoldable pub add_any_source_link : Gateway → LinkEntry → G (Bool × Gateway)
unfolding any_source_with
add_any_source_link gw entry = elim (find_if (module_name_find entry.module_sink) gw.modules) [
  | none ↦ pure (false, gw)
  | some sink ↦ any_source_with gw sink
]

unfoldable pub regular_with : Gateway → ModuleData → ModuleData → G (Bool × Gateway)
regular_with gw source sink = do
  (done, b) ← lift (add_one_link_to_broker gw.broker source.module_handle sink.module_handle)
  if done
      then (do
        pushed ← ask
        if pushed
            then pure
                (true, record gw { broker = b; links = gw.links ++ from_one source sink ∷ [] })
            else (do
              (_, b') ← lift (remove_one_link_from_broker b source.module_handle sink.module_handle)
              pure (false, record gw { broker = b' })))
      else pure (false, record gw { broker = b })

unfoldable pub add_regular_link : Gateway → LinkEntry → G (Bool × Gateway)
unfolding regular_with
add_regular_link gw entry = elim (find_if (module_name_find entry.module_source) gw.modules) [
  | none ↦ pure (false, gw)
  | some source ↦ elim (find_if (module_name_find entry.module_sink) gw.modules) [
    | none ↦ pure (false, gw)
    | some sink ↦ regular_with gw source sink
  ]
]

unfoldable pub gateway_addlink_internal : Gateway → LinkEntry → G (Bool × Gateway)
gateway_addlink_internal gw entry = elim (check_if_link_exists gw entry) [
  | true ↦ pure (false, gw)
  | false ↦ elim (strcmp_eq gateway_all entry.module_source) [
    | true ↦ add_any_source_link gw entry
    | false ↦ add_regular_link gw entry
  ]
]

-- What the removal of a link does to the broker.
unfoldable pub unlink : Gateway → Link → G Gateway
unlink gw (from_any sink) = do
  b ← lift (remove_any_source_link gw.modules sink gw.broker)
  pure (record gw { broker = b })
unlink gw (from_one source sink) = do
  (_, b) ← lift (remove_one_link_from_broker gw.broker source.module_handle sink.module_handle)
  pure (record gw { broker = b })

-- The link that is removed is the first that fits `p`.
unfoldable pub gateway_removelink_internal : (Link → Bool) → Gateway → Link → G Gateway
gateway_removelink_internal p gw link = do
  gw' ← unlink gw link
  pure (record gw' { links = erase_if p gw'.links })
