-- ===== src/Events/Threads.antt =====
-- The thread of core/src/internal/event_system.c: there is never more than one, and its handle is kept.
use azure_iot_gateway_sdk.Base.{◌≡◌, refl, sym, ◌∙◌, subst, Bool, true, false, List, [], ◌∷◌, ◌++◌}
use azure_iot_gateway_sdk.Gateway.Env.{Env}
use azure_iot_gateway_sdk.Events.State.{ThreadQueueRow, EventSystem}
use azure_iot_gateway_sdk.Events.Report.{queue_row, start_thread}
use azure_iot_gateway_sdk.Events.Worker.{
  Worker, absent, polling, waiting, leaving, ended, calling, Machine, poll, wake, work_on, work,
  queue, second_half, Step, registers, prepares, drops, errs, queues, starts, works, Reach, here,
  next,
}
use azure_iot_gateway_sdk.Events.Handles.{
  fresh, is_running, is_ended, OneWorker, Moves, stays, waits, takes, gives_up, wakes, times_out,
  calls, goes_on, ends, Keeps, push_callback-Keeps, queue_row-Keeps, Lives, start_thread-flags,
  start_thread-created, worker_after-Lives, strays_after-same,
}

poll-Lives :
    (delay : Bool) (rows : List ThreadQueueRow)
    → (is_running (poll delay rows).0 ≡ true)
      × (is_ended (poll delay rows).0 ≡ false)
      × Moves polling (poll delay rows).0
unfolding poll
poll-Lives true [] = (refl, refl, waits)
poll-Lives false [] = (refl, refl, gives_up)
poll-Lives delay (row ∷ rows) = (refl, refl, takes row)

wake-Lives :
    (rows : List ThreadQueueRow)
    → (is_running (wake rows).0 ≡ true)
      × (is_ended (wake rows).0 ≡ false)
      × Moves waiting (wake rows).0
unfolding wake
wake-Lives [] = (refl, refl, times_out)
wake-Lives (row ∷ rows) = (refl, refl, wakes row)

work_on-Lives :
    (w : Worker) (m : Machine)
    → OneWorker m.system w
    → w ≡ m.worker
    → Lives w ((work_on w m).system, (work_on w m).worker)
unfolding work_on
work_on-Lives absent m h same = rw (← same) (h, stays absent)
work_on-Lives polling m h same =
    let (running, not_ended, moved) =
      poll-Lives m.system.delay_when_queue_empty m.system.thread_queue in
    ((h.0 ∙ sym running, h.1 ∙ sym not_ended), moved)
work_on-Lives waiting m h same =
    let (running, not_ended, moved) = wake-Lives m.system.thread_queue in
    ((h.0 ∙ sym running, h.1 ∙ sym not_ended), moved)
work_on-Lives leaving m h same = ((refl, h.0), ends)
work_on-Lives ended m h same = rw (← same) (h, stays ended)
work_on-Lives (calling row []) m h same = (h, goes_on row)
work_on-Lives (calling row (closure ∷ closures)) m h same = (h, calls row closure closures)

kept-Lives : (es es' : EventSystem) (w : Worker) → OneWorker es w → Keeps es es' → Lives w (es', w)
kept-Lives es es' w h k = ((k.0 ∙ h.0, k.1 ∙ h.1), stays w)

work_on-strays : (w : Worker) (m : Machine) → (work_on w m).strays ≡ m.strays
unfolding work_on
work_on-strays absent m = refl
work_on-strays polling m = refl
work_on-strays waiting m = refl
work_on-strays leaving m = refl
work_on-strays ended m = refl
work_on-strays (calling row []) m = refl
work_on-strays (calling row (closure ∷ closures)) m = refl

-- One worker stays, and no other thread comes.
abbrev Goes : Machine → Machine → Type 0
Goes m m' = OneWorker m'.system m'.worker × Moves m.worker m'.worker × (m'.strays ≡ m.strays)

goes : (m m' : Machine) → Lives m.worker (m'.system, m'.worker) → m'.strays ≡ m.strays → Goes m m'
goes m m' (one, moves) same = (one, moves, same)

pub Step-Lives :
    {m m' : Machine}
    → Step m m'
    → OneWorker m.system m.worker
    → OneWorker m'.system m'.worker × Moves m.worker m'.worker × (m'.strays ≡ m.strays)
unfolding queue second_half work
Step-Lives (registers m event closure es e made) h =
    goes m (record m { system = es; env = e })
      (kept-Lives m.system es m.worker h
        (subst (λ r. Keeps m.system r.0) made (push_callback-Keeps m.system event closure m.env)))
      refl
Step-Lives (prepares m gw target event row e made) h = (h, stays m.worker, refl)
Step-Lives (drops m gw target event e made) h = (h, stays m.worker, refl)
Step-Lives (errs m gw target event e made) h = (h, stays m.worker, refl)
Step-Lives (queues m front back row made) h =
    goes m (queue row (front ++ back) m)
      (kept-Lives m.system (queue_row row m.system m.env).0.1 m.worker h
        (queue_row-Keeps row m.system m.env))
      refl
Step-Lives (starts m front back queued made) h =
    let (joined_now, same, running) = start_thread-flags queued m.system m.env in
    let es' = (start_thread queued m.system m.env).0 in
    let flags = start_thread-created queued m.system m.env in
    goes m (second_half queued (front ++ back) m)
      (worker_after-Lives _ m.system es' m.worker h joined_now running flags)
      (strays_after-same _ m.system es' m.worker m.strays h flags)
Step-Lives (works m) h =
    goes m (work m) (work_on-Lives m.worker m h refl) (work_on-strays m.worker m)

pub Reach-OneWorker :
    {m m' : Machine} → Reach m m' → OneWorker m.system m.worker → OneWorker m'.system m'.worker
Reach-OneWorker here h = h
Reach-OneWorker (next reach step) h = (Step-Lives step (Reach-OneWorker reach h)).0

-- From a new event system on there is never a thread beside the worker.
Reach-strays : (e : Env) {m : Machine} → Reach (fresh e) m → m.strays ≡ []
Reach-strays e here = refl
Reach-strays e (next reach step) =
    (Step-Lives step (Reach-OneWorker reach (refl, refl))).2 ∙ Reach-strays e reach
