-- ===== src/Events/Worker.antt =====
-- core/src/internal/event_system.c: get_from_thread_queue and callback_thread_main_func, and their
-- interleavings with the threads that report events and register callbacks. A step is what a thread
-- does while it holds a lock, or what it does alone.
use azure_iot_gateway_sdk.Base.{
  ℕ, ◌≡◌, Bool, true, false, ltb, Option, some, none, List, [], ◌∷◌, ◌++◌, if◌then◌else◌,
}
use azure_iot_gateway_sdk.Base.Outcome.{Outcome, ok}
use azure_iot_gateway_sdk.Gateway.Env.{G, Env, GatewayEvent, pure, ◌>>◌, free, vector_destroy}
use azure_iot_gateway_sdk.Gateway.State.{Gateway}
use azure_iot_gateway_sdk.Gateway.ModuleList.{GatewayModuleInfo, gateway_ll_destroy_module_list}
use azure_iot_gateway_sdk.Events.State.{
  Callback, client, callback_destroy_modulelist, CallbackClosure, ThreadQueueRow, EventSystem,
}
use azure_iot_gateway_sdk.Events.Report.{
  errored, push_callback, prepare_report, queue_row, join_destroyed, start_thread,
}

-- Where the worker is. `waiting` is inside Condition_Wait; `leaving` has got no row and will move its
-- handle; `ended` is not joined yet.
pub data Worker : Type 0 where
  absent polling waiting leaving ended : Worker
  calling : ThreadQueueRow → List CallbackClosure → Worker

-- One call of a GATEWAY_CALLBACK with its arguments.
pub record Call : Type 0 where
  pub function : Callback
  pub gateway : ℕ
  pub event_type : GatewayEvent
  pub context : Option (List GatewayModuleInfo)
  pub user_param : ℕ

abbrev pub call_of : ThreadQueueRow → CallbackClosure → Call
call_of row closure = record {
  function = closure.call;
  gateway = row.gateway;
  event_type = row.event_type;
  context = row.context;
  user_param = closure.user_param;
}

-- A client's function works by steps of its own.
unfoldable pub run_callback : Callback → Option (List GatewayModuleInfo) → G (Unit {0})
run_callback (client address) context = pure tt
run_callback callback_destroy_modulelist none = pure tt
run_callback callback_destroy_modulelist (some modules) = gateway_ll_destroy_module_list modules

unfoldable pub destroy_thread_row : ThreadQueueRow → G (Unit {0})
destroy_thread_row row = do vector_destroy; free

-- `ready` are rows of reports that have not come to callbacks_call, and `starting` says for the calls
-- of callbacks_call between its halves whether their row is on the queue. `called` are the calls made,
-- in order. `worker` is the thread that was created last, and `strays` are those before it that nobody
-- has joined; Threads proves that there is none, so a step is always one of `worker`.
pub record Machine : Type 0 where
  pub system : EventSystem
  pub worker : Worker
  pub strays : List Worker
  pub env : Env
  pub ready : List ThreadQueueRow
  pub starting : List Bool
  pub called : List Call

-- get_from_thread_queue up to its end or its wait.
unfoldable pub poll : Bool → List ThreadQueueRow → Worker × List ThreadQueueRow
poll delay (row ∷ rows) = (calling row row.callbacks, rows)
poll true [] = (waiting, [])
poll false [] = (leaving, [])

-- get_from_thread_queue behind its wait, which a post or the time ends.
unfoldable pub wake : List ThreadQueueRow → Worker × List ThreadQueueRow
wake (row ∷ rows) = (calling row row.callbacks, rows)
wake [] = (leaving, [])

abbrev got_row : Worker × List ThreadQueueRow → Machine → Machine
got_row got m = record m { worker = got.0; system = record m.system { thread_queue = got.1 } }

unfoldable pub work_on : Worker → Machine → Machine
work_on absent m = m
work_on polling m = got_row (poll m.system.delay_when_queue_empty m.system.thread_queue) m
work_on waiting m = got_row (wake m.system.thread_queue) m
work_on leaving m = record m {
  worker = ended;
  system = record m.system { destroyed_thread = m.system.callback_thread; callback_thread = false };
}
work_on ended m = m
work_on (calling row []) m = record m { worker = polling; env = (destroy_thread_row row m.env).1 }
work_on (calling row (closure ∷ closures)) m = record m {
  worker = calling row closures;
  env = (run_callback closure.call row.context m.env).1;
  called = m.called ++ call_of row closure ∷ [];
}

unfoldable pub work : Machine → Machine
unfolding work_on
work m = work_on m.worker m

-- The end of a report in its first half, with the rows that stay ready.
unfoldable pub queue : ThreadQueueRow → List ThreadQueueRow → Machine → Machine
queue row rest m =
    let ((queued, es), e) = queue_row row m.system m.env in
    record m { system = es; env = e; ready = rest; starting = queued ∷ m.starting }

-- Whether ThreadAPI_Create has given a thread.
abbrev pub was_created : Env → Env → Bool
was_created before after = ltb before.world.threads after.world.threads

-- The worker behind the wait for one that has ended.
unfoldable pub joined : EventSystem → Worker → Worker
joined before worker = if before.destroyed_thread then absent else worker

unfoldable pub worker_after : Bool → EventSystem → Worker → Worker
worker_after created before worker = if created then polling else joined before worker

-- A thread that is there goes on beside the one created.
unfoldable pub set_beside : Worker → List Worker → List Worker
set_beside absent strays = strays
set_beside polling strays = polling ∷ strays
set_beside waiting strays = waiting ∷ strays
set_beside leaving strays = leaving ∷ strays
set_beside ended strays = ended ∷ strays
set_beside (calling row closures) strays = calling row closures ∷ strays

unfoldable pub strays_after : Bool → EventSystem → Worker → List Worker → List Worker
strays_after created before worker strays =
    if created then set_beside (joined before worker) strays else strays

-- callbacks_call's second half: it waits for a thread that has ended, and may create one.
unfoldable pub second_half : Bool → List Bool → Machine → Machine
second_half queued rest m =
    let (es, e) = start_thread queued m.system m.env in
    let created = was_created (join_destroyed m.system m.env).1 e in
    record m {
      system = es;
      env = e;
      starting = rest;
      worker = worker_after created m.system m.worker;
      strays = strays_after created m.system m.worker m.strays;
    }

pub data Step : Machine → Machine → Type 0 where
  registers :
      (m : Machine) (event : GatewayEvent) (closure : CallbackClosure) (es : EventSystem) (e : Env)
      → push_callback m.system event closure m.env ≡ (es, e)
      → Step m (record m { system = es; env = e })
  prepares :
      (m : Machine) (gw : ℕ) (target : Option Gateway) (event : GatewayEvent) (row : ThreadQueueRow)
      (e : Env)
      → prepare_report m.system gw target event m.env ≡ (ok (some row), e)
      → Step m (record m { env = e; ready = m.ready ++ row ∷ [] })
  drops :
      (m : Machine) (gw : ℕ) (target : Option Gateway) (event : GatewayEvent) (e : Env)
      → prepare_report m.system gw target event m.env ≡ (ok none, e)
      → Step m (record m { env = e })
  errs :
      (m : Machine) (gw : ℕ) (target : Option Gateway) (event : GatewayEvent) (e : Env)
      → prepare_report m.system gw target event m.env ≡ (Outcome.fail, e)
      → Step m (record m { env = e; system = errored m.system })
  queues :
      (m : Machine) (front back : List ThreadQueueRow) (row : ThreadQueueRow)
      → m.ready ≡ front ++ row ∷ back
      → Step m (queue row (front ++ back) m)
  starts :
      (m : Machine) (front back : List Bool) (queued : Bool)
      → m.starting ≡ front ++ queued ∷ back
      → Step m (second_half queued (front ++ back) m)
  works : (m : Machine) → Step m (work m)

pub data Reach (m : Machine) : Machine → Type 0 where
  here : Reach m m
  next : {m' m'' : Machine} → Reach m m' → Step m' m'' → Reach m m''
