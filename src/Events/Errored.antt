-- ===== src/Events/Errored.antt =====
-- core/src/internal/event_system.c after an error, and a report that comes while the worker gives up.
use azure_iot_gateway_sdk.Base.{
  ℕ, ◌+◌, ◌≤◌, ◌≡◌, refl, ap, ◌∙◌, subst, Bool, true, false, Option, none, [], ◌∷◌, ◌++◌, length,
  length-append, arith,
}
use azure_iot_gateway_sdk.Base.Outcome.{ok}
use azure_iot_gateway_sdk.Gateway.Env.{Env, GatewayEvent}
use azure_iot_gateway_sdk.Gateway.State.{Gateway}
use azure_iot_gateway_sdk.Events.State.{CallbackClosure, ThreadQueueRow, EventSystem}
use azure_iot_gateway_sdk.Events.Report.{
  push_callback, prepare_report, queue_row, join_destroyed, create_thread, start_thread,
}
use azure_iot_gateway_sdk.Events.Worker.{
  Worker, absent, polling, waiting, leaving, ended, calling, Machine, work_on, work, queue, joined,
  worker_after, set_beside, strays_after, second_half, Step, registers, prepares, drops, errs,
  queues, starts, works, Reach, here, next,
}
use azure_iot_gateway_sdk.Events.Handles.{OneWorker}

push_callback-errored :
    (es : EventSystem) (event : GatewayEvent) (closure : CallbackClosure) (e : Env)
    → es.is_errored ≡ true
    → (push_callback es event closure e).0.is_errored ≡ true
unfolding push_callback
push_callback-errored es event closure e h = ground arith

queue_row-errored :
    (row : ThreadQueueRow) (es : EventSystem) (e : Env)
    → es.is_errored ≡ true
    → (queue_row row es e).0.1.is_errored ≡ true
unfolding queue_row
queue_row-errored row es e h = ground arith

start_thread-errored :
    (queued : Bool) (es : EventSystem) (e : Env)
    → es.is_errored ≡ true
    → (start_thread queued es e).0.is_errored ≡ true
unfolding start_thread join_destroyed create_thread
start_thread-errored true es e h = ground arith
start_thread-errored false es e h = ground arith

work_on-errored :
    (w : Worker) (m : Machine)
    → ((work_on w m).system.is_errored ≡ m.system.is_errored) × ((work_on w m).ready ≡ m.ready)
unfolding work_on
work_on-errored absent m = (refl, refl)
work_on-errored polling m = (refl, refl)
work_on-errored waiting m = (refl, refl)
work_on-errored leaving m = (refl, refl)
work_on-errored ended m = (refl, refl)
work_on-errored (calling row []) m = (refl, refl)
work_on-errored (calling row (closure ∷ closures)) m = (refl, refl)

prepare_report-none :
    (es : EventSystem) (gw : ℕ) (target : Option Gateway) (event : GatewayEvent) (e : Env)
    → es.is_errored ≡ true
    → (prepare_report es gw target event e).0 ≡ ok none
unfolding prepare_report
prepare_report-none es gw target event e h = rw (h, prepare_report) refl

abbrev pub Closed : Machine → Machine → Type 0
Closed m m' = (m'.system.is_errored ≡ true) × (length m'.ready ≤ length m.ready)

Step-Closed : {m m' : Machine} → Step m m' → m.system.is_errored ≡ true → Closed m m'
unfolding queue second_half work
Step-Closed (registers m event closure es e made) h = (
  subst (λ r. r.0.is_errored ≡ true) made (push_callback-errored m.system event closure m.env h),
  omega arith,
)
Step-Closed (prepares m gw target event row e made) h =
    absurd (cc (made, prepare_report-none m.system gw target event m.env h))
Step-Closed (drops m gw target event e made) h = (h, omega arith)
Step-Closed (errs m gw target event e made) h = (refl, omega arith)
Step-Closed (queues m front back row made) h = (
  queue_row-errored row m.system m.env h,
  omega (arith, ap length made, length-append front (row ∷ back), length-append front back),
)
Step-Closed (starts m front back queued made) h =
    (start_thread-errored queued m.system m.env h, omega arith)
Step-Closed (works m) h =
    let (same, ready) = work_on-errored m.worker m in (same ∙ h, omega (arith, ap length ready))

-- An event system that is errored stays errored, whatever the threads do, and no new report gets past its
-- check: rows may only leave the reports that had passed it before.
pub Reach-Closed : {m m' : Machine} → Reach m m' → m.system.is_errored ≡ true → Closed m m'
Reach-Closed here h = (h, omega arith)
Reach-Closed (next reach step) h =
    let (errored_then, less) = Reach-Closed reach h in
    let (errored_now, less') = Step-Closed step errored_then in (errored_now, omega arith)

-- The row stays on the queue without a thread that would take it.
abbrev pub Lost : ThreadQueueRow → Machine → Machine → Type 0
Lost row m m' =
    (m'.system.thread_queue ≡ m.system.thread_queue ++ row ∷ [])
    × (m'.system.callback_thread ≡ false)
    × (m'.system.is_errored ≡ m.system.is_errored)
    × (m'.ready ≡ [])
    × (m'.starting ≡ [])
    × (work m' ≡ m')

-- While the worker has got no row and still holds its handle, a report that puts its row onto the queue
-- starts no thread: with no other report under way there is a run, without any failure of memory or list,
-- after which the row is on the queue, no thread is there, none is about to be started, and the worker does
-- nothing more.
pub leaving-Lost :
    (m : Machine) (row : ThreadQueueRow)
    → m.worker ≡ leaving
    → OneWorker m.system m.worker
    → m.ready ≡ row ∷ []
    → m.starting ≡ []
    → m.env.world.oracle m.env.world.calls ≡ true
    → m.env.world.oracle (m.env.world.calls + 1) ≡ true
    → (m' : Machine) × Reach m m' × Lost row m m'
unfolding queue second_half work work_on queue_row start_thread join_destroyed create_thread
    worker_after joined set_beside strays_after
leaving-Lost m row at_exit one alone no_start made added =
    let m1 : Machine = record m {
      system = record m.system { thread_queue = m.system.thread_queue ++ row ∷ [] };
      env = record m.env {
        world = record m.env.world {
          memory = m.env.world.memory + 1;
          calls = m.env.world.calls + 1 + 1;
        };
      };
      ready = [];
      starting = true ∷ [];
    } in
    let m2 : Machine = record m1 { starting = [] } in
    let m3 : Machine = record m2 {
      worker = ended;
      system = record m1.system { callback_thread = false; destroyed_thread = true };
    } in
    let queued : queue row [] m ≡ m1 = ground arith in
    let started : second_half true [] m1 ≡ m2 = ground (arith, one.0, one.1) in
    let left : work m2 ≡ m3 = ground (arith, one.0) in
    (
      m3,
      next
          (next (next here (subst (λ x. Step m x) queued (queues m [] [] row alone)))
            (subst (λ x. Step m1 x) started (starts m1 [] [] true refl)))
          (subst (λ x. Step m2 x) left (works m2)),
      (refl, refl, refl, refl, refl, refl),
    )
