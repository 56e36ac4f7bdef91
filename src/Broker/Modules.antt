-- ===== src/Broker/Modules.antt =====
-- core/src/broker.c: init_module, deinit_module, start_module, stop_module, Broker_AddModule and
-- Broker_RemoveModule.
use azure_iot_gateway_sdk.Base.{
  Bool, true, false, ◌||◌, Option, some, none, [], ◌∷◌, ◌++◌, ◌==◌, if◌then◌else◌,
}
use azure_iot_gateway_sdk.Broker.World.{
  M, pure, ◌>>=◌, ◌>>◌, ask, malloc, free, lock_init, lock_deinit, string_construct, string_delete,
  nn_socket, nn_close, thread_create, thread_join, unique_id, nn_send,
}
use azure_iot_gateway_sdk.Broker.State.{
  BrokerResult, broker_ok, broker_error, broker_invalidarg, Module, ModuleInfo, Broker, list_find,
  list_remove,
}

-- The info that was set up; `none` with whether the memory of `module` is there.
abbrev pub InitResult : Type 0
InitResult = Option ModuleInfo × Bool

unfoldable pub init_guid : Module → M InitResult
init_guid m = do
  (made, uuid) ← unique_id
  if made
      then (do
        guid ← string_construct
        if guid
            then pure
                (some (record { module_data = m; quit_message_guid = uuid; topics = [] }), true)
            else (do lock_deinit; pure (none, true)))
      else (do lock_deinit; pure (none, true))

unfoldable pub init_module : Module → M InitResult
init_module m = do
  allocated ← malloc
  if allocated
      then (do socket_lock ← lock_init; if socket_lock then init_guid m else pure (none, true))
      else pure (none, false)

unfoldable pub deinit_module : M (Unit {0})
deinit_module = do lock_deinit; string_delete; free

-- The socket with its subscription to the quit signal, and the thread; `none` is BROKER_ERROR.
unfoldable pub start_module : ModuleInfo → M (Option ModuleInfo)
start_module info = do
  receive_socket ← nn_socket
  if receive_socket
      then (do
        connected ← ask
        if connected
            then (do
              subscribed ← ask
              if subscribed
                  then (do
                    thread ← thread_create
                    if thread
                        then pure (some (record info { topics = info.quit_message_guid ∷ [] }))
                        else (do nn_close; pure none))
                  else (do nn_close; pure none))
            else (do nn_close; pure none))
      else pure none

-- Whether the thread was joined. The quit message that goes out is the guid with its terminator.
unfoldable pub stop_module : ModuleInfo → M Bool
stop_module info = do
  sent ← nn_send (info.quit_message_guid ++ 0 ∷ [])
  if sent
      then (do
        locked ← ask
        if locked then (do nn_close; _ ← ask; thread_join) else (do nn_close; thread_join))
      else (do nn_close; thread_join)

-- The end of the attachment, and the unlocking of the module list.
unfoldable pub attach_started : Broker → Option ModuleInfo → M (BrokerResult × Broker)
attach_started b none = do deinit_module; free; _ ← ask; pure (broker_error, b)
attach_started b (some info) = do
  _ ← ask
  pure (broker_ok, record b { modules = b.modules ++ info ∷ [] })

-- The module list, locked, with the new info at its end until the module is started.
unfoldable pub attach_module : Broker → ModuleInfo → M (BrokerResult × Broker)
attach_module b info = do
  added ← ask
  if added
      then (do started ← start_module info; attach_started b started)
      else (do deinit_module; free; _ ← ask; pure (broker_error, b))

unfoldable pub with_info : Broker → InitResult → M (BrokerResult × Broker)
with_info b (none, allocated) =
    if allocated then (do free; free; pure (broker_error, b)) else (do free; pure (broker_error, b))
with_info b (some info, allocated) = do
  locked ← ask
  if locked then attach_module b info else (do deinit_module; free; pure (broker_error, b))

unfoldable pub add_module_checked : Broker → Module → M (BrokerResult × Broker)
add_module_checked b m = do
  module_info ← malloc
  if module_info then (do result ← init_module m; with_info b result) else pure (broker_error, b)

-- The calls of `Unlock`, whose result nothing reads, take a number too.
unfoldable pub broker_add_module : Option Broker → Option Module → M (BrokerResult × Option Broker)
broker_add_module none m = pure (broker_invalidarg, none)
broker_add_module (some b) none = pure (broker_invalidarg, some b)
broker_add_module (some b) (some m) =
    if (m.module_apis == 0) || (m.module_handle == 0)
    then pure (broker_invalidarg, some b)
    else (do (result, b') ← add_module_checked b m; pure (result, some b'))

unfoldable pub detach_stopped : Broker → Module → Bool → M (BrokerResult × Broker)
detach_stopped b m stopped = do
  if stopped then deinit_module else pure tt
  free
  _ ← ask
  pure (broker_ok, record b { modules = list_remove m.module_handle b.modules })

unfoldable pub detach_module : Broker → Module → Option ModuleInfo → M (BrokerResult × Broker)
detach_module b m none = do _ ← ask; pure (broker_error, b)
detach_module b m (some info) = do stopped ← stop_module info; detach_stopped b m stopped

unfoldable pub broker_remove_module :
    Option Broker → Option Module → M (BrokerResult × Option Broker)
broker_remove_module none m = pure (broker_invalidarg, none)
broker_remove_module (some b) none = pure (broker_invalidarg, some b)
broker_remove_module (some b) (some m) = do
  locked ← ask
  if locked
      then (do
        (result, b') ← detach_module b m (list_find m.module_handle b.modules)
        pure (result, some b'))
      else pure (broker_error, some b)
