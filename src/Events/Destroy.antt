-- ===== src/Events/Destroy.antt =====
-- core/src/internal/event_system.c: destroy_event_system of an event system that EventSystem_Init has made.
use azure_iot_gateway_sdk.Base.{Option, some, none, List, [], ◌∷◌, ◌++◌}
use azure_iot_gateway_sdk.Gateway.Env.{G, pure, ◌>>=◌, ◌>>◌}
use azure_iot_gateway_sdk.Events.State.{CallbackClosure, ThreadQueueRow, EventSystem, thread_join}
use azure_iot_gateway_sdk.Events.Init.{unless_null, destroy_parts, all_parts}
use azure_iot_gateway_sdk.Events.Worker.{
  Worker, absent, polling, waiting, leaving, ended, calling, Call, call_of, run_callback,
  destroy_thread_row,
}

-- The calls of one row that are left; `none` of them changes what the row is.
unfoldable pub call_closures : ThreadQueueRow → List CallbackClosure → G (List Call)
call_closures row [] = do destroy_thread_row row; pure []
call_closures row (closure ∷ closures) = do
  run_callback closure.call row.context
  calls ← call_closures row closures
  pure (call_of row closure ∷ calls)

-- callback_thread_main_func when no report comes and it shall not wait: its calls, up to the empty queue.
unfoldable pub drain : List ThreadQueueRow → G (List Call)
drain [] = pure []
drain (row ∷ rows) = do
  calls ← call_closures row row.callbacks
  more ← drain rows
  pure (calls ++ more)

-- What the worker does until it has ended: its calls, and the rows that it leaves on the queue.
unfoldable pub run_worker : Worker → List ThreadQueueRow → G (List Call × List ThreadQueueRow)
run_worker absent rows = pure ([], rows)
run_worker leaving rows = pure ([], rows)
run_worker ended rows = pure ([], rows)
run_worker polling rows = do calls ← drain rows; pure (calls, [])
run_worker waiting rows = do calls ← drain rows; pure (calls, [])
run_worker (calling row closures) rows = do
  calls ← call_closures row closures
  more ← drain rows
  pure (calls ++ more, [])

unfoldable pub destroy_rows : List ThreadQueueRow → G (Unit {0})
destroy_rows [] = pure tt
destroy_rows (row ∷ rows) = do destroy_thread_row row; destroy_rows rows

-- The calls that the worker makes meanwhile. No other thread uses the event system any more.
unfoldable pub destroy_event_system : Option (EventSystem × Worker) → G (List Call)
destroy_event_system none = pure []
destroy_event_system (some (es, worker)) = do
  (calls, rows) ← run_worker worker es.thread_queue
  unless_null es.callback_thread thread_join
  unless_null es.destroyed_thread thread_join
  destroy_rows rows
  destroy_parts all_parts
  pure calls
