-- ===== src/Events/Report.antt =====
-- core/src/internal/event_system.c: EventSystem_AddEventCallback and EventSystem_ReportEvent with
-- handle_module_list_update, callbacks_call and add_to_thread_queue.
use azure_iot_gateway_sdk.Base.{
  ℕ, Bool, true, false, Option, some, none, List, [], ◌∷◌, ◌++◌, if◌then◌else◌,
}
use azure_iot_gateway_sdk.Base.Outcome.{Outcome, ok, fault}
use azure_iot_gateway_sdk.Gateway.Env.{
  G, GatewayEvent, pure, ◌>>=◌, ◌>>◌, malloc, free, ask, vector_create, vector_destroy,
}
use azure_iot_gateway_sdk.Gateway.Env.GatewayEvent.{
  gateway_created, gateway_started, gateway_module_list_changed, gateway_destroyed,
}
use azure_iot_gateway_sdk.Gateway.State.{Gateway}
use azure_iot_gateway_sdk.Gateway.ModuleList.{GatewayModuleInfo, gateway_ll_get_module_list}
use azure_iot_gateway_sdk.Events.State.{
  client, callback_destroy_modulelist, CallbackClosure, ThreadQueueRow, EventSystem, set_callbacks,
  thread_create, thread_join,
}

abbrev pub errored : EventSystem → EventSystem
errored es = record es { is_errored = true }

unfoldable pub push_callback : EventSystem → GatewayEvent → CallbackClosure → G EventSystem
push_callback es event closure = do
  pushed ← ask
  pure (
      if pushed
      then (record es {
        event_callbacks =
            set_callbacks event (es.event_callbacks event ++ closure ∷ []) es.event_callbacks;
      })
      else errored es)

-- `none` is a null pointer.
unfoldable pub add_event_callback :
    Option EventSystem → GatewayEvent → Option ℕ → ℕ → G (Option EventSystem)
add_event_callback none event callback user_param = pure none
add_event_callback (some es) event none user_param = pure (some es)
add_event_callback (some es) event (some callback) user_param = do
  es' ← push_callback es event (record { call = client callback; user_param = user_param })
  pure (some es')

-- Gateway_LL_AddEventCallback of core/src/gateway_ll.c on a gateway and its event system.
unfoldable pub gateway_ll_add_event_callback :
    Option Gateway → Option EventSystem → GatewayEvent → Option ℕ → ℕ → G (Option EventSystem)
gateway_ll_add_event_callback none es event_type callback user_param = pure es
gateway_ll_add_event_callback (some gw) es event_type callback user_param =
    add_event_callback es event_type callback user_param

abbrev destroy_closure : CallbackClosure
destroy_closure = record { call = callback_destroy_modulelist; user_param = 0 }

-- `fail` sets is_errored.
abbrev pub Context : Type 0
Context = Outcome (Option (List GatewayModuleInfo) × List CallbackClosure)

unfoldable pub with_modules :
    Outcome (Option (List GatewayModuleInfo)) → List CallbackClosure → G Context
with_modules (ok none) callbacks = pure Outcome.fail
with_modules (ok (some modules)) callbacks = do
  pushed ← ask
  if pushed
      then pure (ok (some modules, callbacks ++ destroy_closure ∷ []))
      else (do vector_destroy; pure Outcome.fail)
with_modules Outcome.fail callbacks = pure fault
with_modules fault callbacks = pure fault

unfoldable pub handle_module_list_update : Option Gateway → List CallbackClosure → G Context
handle_module_list_update gw callbacks = do
  modules ← gateway_ll_get_module_list gw
  with_modules modules callbacks

unfoldable pub event_context : GatewayEvent → Option Gateway → List CallbackClosure → G Context
event_context gateway_created gw callbacks = pure (ok (none, callbacks))
event_context gateway_started gw callbacks = pure (ok (none, callbacks))
event_context gateway_module_list_changed gw callbacks = handle_module_list_update gw callbacks
event_context gateway_destroyed gw callbacks = pure (ok (none, callbacks))

-- The row that callbacks_call is given, if there is one.
unfoldable pub leave_context : ℕ → GatewayEvent → Context → G (Outcome (Option ThreadQueueRow))
leave_context gw event (ok (context, callbacks)) = pure (
    ok (
      some (record { gateway = gw; event_type = event; callbacks = callbacks; context = context })))
leave_context gw event Outcome.fail = do vector_destroy; pure Outcome.fail
leave_context gw event fault = pure fault

unfoldable pub copy_callbacks :
    ℕ → Option Gateway → GatewayEvent → List CallbackClosure → G (Outcome (Option ThreadQueueRow))
copy_callbacks gw target event [] = pure (ok none)
copy_callbacks gw target event (closure ∷ closures) = do
  call_queue ← vector_create
  if call_queue
      then (do
        pushed ← ask
        if pushed
            then (do
              context ← event_context event target (closure ∷ closures)
              leave_context gw event context)
            else (do vector_destroy; pure Outcome.fail))
      else pure Outcome.fail

-- EventSystem_ReportEvent before its call of callbacks_call. `gw` is the address of the gateway, and
-- `target` is what stands there.
unfoldable pub prepare_report :
    EventSystem → ℕ → Option Gateway → GatewayEvent → G (Outcome (Option ThreadQueueRow))
prepare_report es gw target event =
    if es.is_errored
    then pure (ok none)
    else copy_callbacks gw target event (es.event_callbacks event)

-- The first half of callbacks_call, with add_to_thread_queue: whether the row is on the queue.
unfoldable pub queue_row : ThreadQueueRow → EventSystem → G (Bool × EventSystem)
queue_row row es = do
  made ← malloc
  if made
      then (do
        added ← ask
        if added
            then pure (true, record es { thread_queue = es.thread_queue ++ row ∷ [] })
            else (do vector_destroy; free; pure (false, es)))
      else (do vector_destroy; pure (false, es))

-- The second half, which holds internal_change_lock.
unfoldable pub join_destroyed : EventSystem → G EventSystem
join_destroyed es =
    if es.destroyed_thread
    then (do thread_join; pure (record es { destroyed_thread = false }))
    else pure es

unfoldable pub create_thread : Bool → EventSystem → G EventSystem
create_thread false es = pure (errored es)
create_thread true es = if es.callback_thread then pure es else (do
  created ← thread_create
  pure (if created then record es { callback_thread = true } else errored es))

unfoldable pub start_thread : Bool → EventSystem → G EventSystem
start_thread queued es = do es' ← join_destroyed es; create_thread queued es'

unfoldable pub callbacks_call : ThreadQueueRow → EventSystem → G EventSystem
callbacks_call row es = do (queued, es') ← queue_row row es; start_thread queued es'

unfoldable pub finish_report :
    EventSystem → Outcome (Option ThreadQueueRow) → G (Outcome (Option EventSystem))
finish_report es (ok none) = pure (ok (some es))
finish_report es (ok (some row)) = do es' ← callbacks_call row es; pure (ok (some es'))
finish_report es Outcome.fail = pure (ok (some (errored es)))
finish_report es fault = pure fault

-- With no other thread between its two halves.
unfoldable pub report_event :
    Option EventSystem → ℕ → Option Gateway → GatewayEvent → G (Outcome (Option EventSystem))
report_event none gw target event = pure (ok none)
report_event (some es) gw target event = do
  prepared ← prepare_report es gw target event
  finish_report es prepared
