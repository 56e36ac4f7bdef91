-- ===== src/Events/Tests.antt =====
-- Runs of core/src/internal/event_system.c on a small event system.
use azure_iot_gateway_sdk.Base.{ℕ, ◌+◌, ◌≡◌, refl, true, Option, some, none, List, [], ◌∷◌, ◌++◌}
use azure_iot_gateway_sdk.Base.Outcome.{Outcome, ok}
use azure_iot_gateway_sdk.Broker.Samples.{world_holding}
use azure_iot_gateway_sdk.Gateway.Env.{Env}
use azure_iot_gateway_sdk.Gateway.Env.GatewayEvent.{gateway_started}
use azure_iot_gateway_sdk.Events.State.{client, CallbackClosure, ThreadQueueRow, EventSystem}
use azure_iot_gateway_sdk.Events.Init.{new_event_system, init}
use azure_iot_gateway_sdk.Events.Report.{
  push_callback, copy_callbacks, event_context, leave_context, prepare_report, queue_row,
  join_destroyed, create_thread, start_thread,
}
use azure_iot_gateway_sdk.Events.Worker.{
  Worker, leaving, ended, calling, Machine, poll, work_on, work, queue, worker_after, joined,
  second_half, call_of, Step, registers, prepares, queues, starts, works, Reach, here, next,
}
use azure_iot_gateway_sdk.Events.Destroy.{destroy_event_system}
use azure_iot_gateway_sdk.Events.Startup.{owned, Started, init-Started}
use azure_iot_gateway_sdk.Events.Handles.{fresh}
use azure_iot_gateway_sdk.Events.Order.{
  FifoStep, view, posted, all_posted, Step-FifoStep, Reach-order,
}
use azure_iot_gateway_sdk.Events.Rows.{Prepares, prepare_report-Prepares}
use azure_iot_gateway_sdk.Events.Errored.{Closed, Lost, Reach-Closed, leaving-Lost}
use azure_iot_gateway_sdk.Events.Ending.{bare, calls_left, destroy_event_system-Ended}

abbrev platform : Env
platform = record {
  world = world_holding 20 10;
  handles = λ n. n + 4096;
  apis = λ library. 16;
  has_start = λ library. true;
  libraries = 0;
  instances = 0;
  vectors = 0;
  event_systems = 0;
  conditions = 0;
  json_values = 0;
  json_texts = 0;
  events = [];
  starts = [];
}

init-Started_example : Started (owned platform) (init platform)
init-Started_example = init-Started platform

abbrev closure : ℕ → CallbackClosure
closure user_param = record { call = client 64; user_param = user_param }

abbrev two_closures : List CallbackClosure
two_closures = closure 1 ∷ closure 2 ∷ []

abbrev row : ThreadQueueRow
row = record {
  gateway = 32;
  event_type = gateway_started;
  callbacks = two_closures;
  context = none;
}

abbrev registered : EventSystem
registered = record new_event_system { event_callbacks = λ event. two_closures }

prepare_report-Prepares_example :
    Prepares registered 32 none gateway_started
      (prepare_report registered 32 none gateway_started platform).0
prepare_report-Prepares_example =
    prepare_report-Prepares registered 32 none gateway_started platform

-- A report with its row in hand, and no worker.
abbrev one_ready : Machine
one_ready = record (fresh platform) { system = registered; ready = row ∷ [] }

abbrev queueing : Step one_ready (queue row [] one_ready)
queueing = queues one_ready [] [] row refl

Step-FifoStep_example : FifoStep (posted queueing) (view one_ready) (view (queue row [] one_ready))
Step-FifoStep_example = Step-FifoStep queueing (refl, refl)

posts_both : posted queueing ≡ call_of row (closure 1) ∷ call_of row (closure 2) ∷ []
unfolding queue_row
posts_both = refl

-- The worker has ended, its row waits for a report that creates another.
abbrev to_start : Machine
to_start = record (fresh platform) {
  system = record registered { destroyed_thread = true; thread_queue = row ∷ [] };
  worker = ended;
  starting = true ∷ [];
}

abbrev starting : Step to_start (second_half true [] to_start)
starting = starts to_start [] [] true refl

-- A callback is registered, an event is reported, and a new worker makes the call.
abbrev registers_one : EventSystem × Env
registers_one = push_callback new_event_system gateway_started (closure 1) platform

abbrev one_registered : Machine
one_registered = record (fresh platform) { system = registers_one.0; env = registers_one.1 }

abbrev reported : Outcome (Option ThreadQueueRow) × Env
reported = prepare_report registers_one.0 32 none gateway_started registers_one.1

abbrev one_row : ThreadQueueRow
one_row = record row { callbacks = closure 1 ∷ [] }

reports_one : reported ≡ (ok (some one_row), reported.1)
unfolding push_callback prepare_report copy_callbacks event_context leave_context
reports_one = refl

abbrev one_reported : Machine
one_reported = record one_registered { env = reported.1; ready = one_row ∷ [] }

abbrev one_queued : Machine
one_queued = queue one_row [] one_reported

one_queued_starting : one_queued.starting ≡ [] ++ true ∷ []
unfolding queue queue_row push_callback prepare_report copy_callbacks event_context leave_context
one_queued_starting = refl

abbrev first_call : Reach (fresh platform) (work (work (second_half true [] one_queued)))
first_call =
    next
      (next
        (next
          (next
            (next
              (next here (
                registers (fresh platform) gateway_started (closure 1) registers_one.0
                  registers_one.1 refl))
              (prepares one_registered 32 none gateway_started one_row reported.1 reports_one))
            (queues one_reported [] [] one_row refl))
          (starts one_queued [] [] true one_queued_starting))
        (works (second_half true [] one_queued)))
      (works (work (second_half true [] one_queued)))

Reach-order_example :
    (view (work (work (second_half true [] one_queued)))).made
      ++ (view (work (work (second_half true [] one_queued)))).todo
    ≡ all_posted first_call
Reach-order_example = Reach-order platform first_call

first_call_made :
    (view (work (work (second_half true [] one_queued)))).made ≡ call_of one_row (closure 1) ∷ []
unfolding work_on second_half start_thread join_destroyed create_thread worker_after joined queue
    queue_row push_callback prepare_report copy_callbacks event_context leave_context poll work
first_call_made = refl

abbrev one_errored : Machine
one_errored = record one_ready { system = record registered { is_errored = true } }

Reach-Closed_example : Closed one_errored (queue row [] one_errored)
Reach-Closed_example = Reach-Closed (next here (queues one_errored [] [] row refl)) refl

-- The worker is about to move its handle when the row comes.
abbrev at_exit : Machine
at_exit = record one_ready {
  system = record registered { callback_thread = true };
  worker = leaving;
}

leaving-Lost_example : (m' : Machine) × Reach at_exit m' × Lost row at_exit m'
leaving-Lost_example = leaving-Lost at_exit row refl (refl, refl) refl refl refl refl

-- The worker has made the first call of a row, and another is on the queue.
abbrev in_use : EventSystem
in_use = record registered { callback_thread = true; thread_queue = row ∷ [] }

abbrev at_work : Worker
at_work = calling row (closure 2 ∷ [])

destroy_event_system-Ended_example :
    let r = destroy_event_system (some (in_use, at_work)) (record platform { conditions = 1 }) in
    (bare (owned r.1)
      ≡ bare (record (owned platform) {
        memory = 17;
        locks = 8;
        conditions = 0;
        lists = 0;
        threads = 9;
      }))
    × (r.0 ≡ calls_left at_work (row ∷ []))
destroy_event_system-Ended_example =
    destroy_event_system-Ended in_use at_work
      (record (owned platform) { memory = 17; locks = 8; conditions = 0; lists = 0; threads = 9 })
      (record platform { conditions = 1 }) refl
