-- ===== src/Events/Order.antt =====
-- The calls of core/src/internal/event_system.c come in the order in which their rows were queued.
use azure_iot_gateway_sdk.Base.{
  ◌+◌, ◌≡◌, refl, sym, ap, ◌∙◌, subst, inl, inr, Bool, true, false, List, [], ◌∷◌, ◌++◌, map, ◌&&◌,
  not, append_assoc, append-nil, Bool-cases, arith, if◌then◌else◌,
}
use azure_iot_gateway_sdk.Gateway.Env.{Env, GatewayEvent}
use azure_iot_gateway_sdk.Events.State.{CallbackClosure, ThreadQueueRow, EventSystem}
use azure_iot_gateway_sdk.Events.Report.{push_callback, queue_row, join_destroyed, start_thread}
use azure_iot_gateway_sdk.Events.Worker.{
  Worker, absent, polling, waiting, leaving, ended, calling, Call, call_of, Machine, poll, wake,
  work_on, work, queue, was_created, joined, worker_after, second_half, Step, registers, prepares,
  drops, errs, queues, starts, works, Reach, here, next,
}
use azure_iot_gateway_sdk.Events.Handles.{
  fresh, OneWorker, start_thread-flags, start_thread-created,
}
use azure_iot_gateway_sdk.Events.Threads.{Reach-OneWorker}

-- What the event system promises: calls are posted behind those to do, and made from the front.
pub record Fifo : Type 0 where
  pub made : List Call
  pub todo : List Call

-- A step, with the calls that it posts.
pub data FifoStep : List Call → Fifo → Fifo → Type 0 where
  posts : (f : Fifo) (more : List Call) → FifoStep more f (record f { todo = f.todo ++ more })
  makes :
      (f : Fifo) (call : Call) (rest : List Call)
      → f.todo ≡ call ∷ rest
      → FifoStep [] f (record { made = f.made ++ call ∷ []; todo = rest })
  idles : (f : Fifo) → FifoStep [] f f

-- The calls of the row that the worker has in hand, and those of the rows on the queue.
abbrev pub hand : Worker → List Call
hand absent = []
hand polling = []
hand waiting = []
hand leaving = []
hand ended = []
hand (calling row closures) = map (call_of row) closures

abbrev pub calls_of : ThreadQueueRow → List Call
calls_of row = map (call_of row) row.callbacks

abbrev pub queued_calls : List ThreadQueueRow → List Call
queued_calls [] = []
queued_calls (row ∷ rows) = calls_of row ++ queued_calls rows

abbrev pub view : Machine → Fifo
view m = record { made = m.called; todo = hand m.worker ++ queued_calls m.system.thread_queue }

-- The calls of the row, if the step brings it onto the queue.
abbrev pub posted : {m m' : Machine} → Step m m' → List Call
posted (registers m event closure es e made) = []
posted (prepares m gw target event row e made) = []
posted (drops m gw target event e made) = []
posted (errs m gw target event e made) = []
posted (queues m front back row made) =
    if (queue_row row m.system m.env).0.0 then calls_of row else []
posted (starts m front back queued made) = []
posted (works m) = []

abbrev pub all_posted : {m m' : Machine} → Reach m m' → List Call
all_posted here = []
all_posted (next reach step) = all_posted reach ++ posted step

queued_calls-append :
    (rows : List ThreadQueueRow) (row : ThreadQueueRow)
    → queued_calls (rows ++ row ∷ []) ≡ queued_calls rows ++ calls_of row
queued_calls-append [] row = append-nil (calls_of row)
queued_calls-append (r ∷ rows) row =
    ap (λ calls. calls_of r ++ calls) (queued_calls-append rows row)
    ∙ sym (append_assoc (calls_of r) (queued_calls rows) (calls_of row))

push_callback-queue :
    (es : EventSystem) (event : GatewayEvent) (closure : CallbackClosure) (e : Env)
    → (push_callback es event closure e).0.thread_queue ≡ es.thread_queue
unfolding push_callback
push_callback-queue es event closure e = ground arith

queue_row-queue :
    (row : ThreadQueueRow) (es : EventSystem) (e : Env)
    → queued_calls (queue_row row es e).0.1.thread_queue
      ≡ queued_calls es.thread_queue ++ (if (queue_row row es e).0.0 then calls_of row else [])
unfolding queue_row
queue_row-queue row es e = elim (Bool-cases (e.world.oracle e.world.calls)) [
  | inr failed ↦ rw (failed, queue_row) (sym (append-nil (queued_calls es.thread_queue)))
  | inl made ↦ elim (Bool-cases (e.world.oracle (e.world.calls + 1))) [
    | inr failed ↦ rw (made, failed, queue_row) (sym (append-nil (queued_calls es.thread_queue)))
    | inl added ↦ rw (made, added, queue_row) (queued_calls-append es.thread_queue row)
  ]
]

hand-worker_after :
    (created : Bool) (es es' : EventSystem) (w : Worker)
    → OneWorker es w
    → created ≡ (es'.callback_thread && not es.callback_thread)
    → hand (worker_after created es w) ≡ hand w
unfolding worker_after joined
hand-worker_after true es es' absent h c = refl
hand-worker_after false es es' absent h c = ground arith
hand-worker_after true es es' ended h c = refl
hand-worker_after false es es' ended h c = ground arith
hand-worker_after true es es' polling h c = refl
hand-worker_after false es es' polling h c = rw h.1 refl
hand-worker_after true es es' waiting h c = refl
hand-worker_after false es es' waiting h c = rw h.1 refl
hand-worker_after true es es' leaving h c = refl
hand-worker_after false es es' leaving h c = rw h.1 refl
hand-worker_after true es es' (calling row closures) h c = absurd (ground arith)
hand-worker_after false es es' (calling row closures) h c = rw h.1 refl

-- `todo` after the worker has looked for a row.
poll-todo :
    (delay : Bool) (rows : List ThreadQueueRow)
    → hand (poll delay rows).0 ++ queued_calls (poll delay rows).1 ≡ queued_calls rows
unfolding poll
poll-todo true [] = refl
poll-todo false [] = refl
poll-todo delay (row ∷ rows) = refl

wake-todo :
    (rows : List ThreadQueueRow)
    → hand (wake rows).0 ++ queued_calls (wake rows).1 ≡ queued_calls rows
unfolding wake
wake-todo [] = refl
wake-todo (row ∷ rows) = refl

-- Nothing is posted or made where both lists stay.
still : (f f' : Fifo) → f'.made ≡ f.made → f'.todo ≡ f.todo → FifoStep [] f f'
still f f' made todo = let e : f ≡ f' = ground arith in subst (λ g. FifoStep [] f g) e (idles f)

in_hand :
    (m : Machine) (w : Worker)
    → w ≡ m.worker
    → hand w ++ queued_calls m.system.thread_queue ≡ (view m).todo
in_hand m w same = ap (λ v. hand v ++ queued_calls m.system.thread_queue) same

work_on-FifoStep :
    (w : Worker) (m : Machine) → w ≡ m.worker → FifoStep [] (view m) (view (work_on w m))
unfolding work_on
work_on-FifoStep absent m same = idles (view m)
work_on-FifoStep ended m same = idles (view m)
work_on-FifoStep polling m same =
    still (view m) (view (work_on polling m)) refl
      (poll-todo m.system.delay_when_queue_empty m.system.thread_queue ∙ in_hand m polling same)
work_on-FifoStep waiting m same =
    still (view m) (view (work_on waiting m)) refl
      (wake-todo m.system.thread_queue ∙ in_hand m waiting same)
work_on-FifoStep leaving m same =
    still (view m) (view (work_on leaving m)) refl (in_hand m leaving same)
work_on-FifoStep (calling row []) m same =
    still (view m) (view (work_on (calling row []) m)) refl (in_hand m (calling row []) same)
work_on-FifoStep (calling row (closure ∷ closures)) m same =
    makes (view m) (call_of row closure)
      (map (call_of row) closures ++ queued_calls m.system.thread_queue)
      (sym (in_hand m (calling row (closure ∷ closures)) same))

-- Every step of a thread, in a state with at most one worker, is a step of the promised list: a row that
-- comes onto the queue posts its calls in the order of its callbacks, the worker makes the first call
-- that is to do, and every other step posts and makes nothing.
pub Step-FifoStep :
    {m m' : Machine} (step : Step m m')
    → OneWorker m.system m.worker
    → FifoStep (posted step) (view m) (view m')
unfolding queue second_half work
Step-FifoStep (registers m event closure es e made) h =
    let same : es.thread_queue ≡ m.system.thread_queue =
      subst (λ r. r.0.thread_queue ≡ m.system.thread_queue) made
        (push_callback-queue m.system event closure m.env) in
    still (view m) (view (record m { system = es; env = e })) refl
      (ap (λ rows. hand m.worker ++ queued_calls rows) same)
Step-FifoStep (prepares m gw target event row e made) h = idles (view m)
Step-FifoStep (drops m gw target event e made) h = idles (view m)
Step-FifoStep (errs m gw target event e made) h = idles (view m)
Step-FifoStep (queues m front back row made) h =
    let more = if (queue_row row m.system m.env).0.0 then calls_of row else [] in
    let e : (view m).todo ++ more ≡ (view (queue row (front ++ back) m)).todo =
      append_assoc (hand m.worker) (queued_calls m.system.thread_queue) more
      ∙ ap (λ calls. hand m.worker ++ calls) (sym (queue_row-queue row m.system m.env)) in
    subst (λ todo. FifoStep more (view m) (record { made = m.called; todo = todo })) e
      (posts (view m) more)
Step-FifoStep (starts m front back queued made) h =
    let (es', e') = start_thread queued m.system m.env in
    let (joined_now, same, running) = start_thread-flags queued m.system m.env in
    let created = was_created (join_destroyed m.system m.env).1 e' in
    still (view m) (view (second_half queued (front ++ back) m)) refl (
      ap (λ rows. hand (worker_after created m.system m.worker) ++ queued_calls rows) same
      ∙ ap (λ calls. calls ++ queued_calls m.system.thread_queue)
          (hand-worker_after created m.system es' m.worker h
            (start_thread-created queued m.system m.env)))
Step-FifoStep (works m) h = work_on-FifoStep m.worker m refl

FifoStep-append :
    {more : List Call} {f f' : Fifo}
    → FifoStep more f f'
    → f'.made ++ f'.todo ≡ (f.made ++ f.todo) ++ more
FifoStep-append (posts f more) = sym (append_assoc f.made f.todo more)
FifoStep-append (makes f call rest front) =
    append_assoc f.made (call ∷ []) rest
    ∙ ap (λ calls. f.made ++ calls) (sym front)
    ∙ sym (append-nil (f.made ++ f.todo))
FifoStep-append (idles f) = sym (append-nil (f.made ++ f.todo))

-- Whatever the threads do from an event system without a row and without a worker on, the calls made and
-- those still to do are together the calls of all rows that came onto the queue, each once, in the order
-- in which the rows came and, in a row, in the order of its callbacks.
pub Reach-order :
    (e : Env) {m : Machine} (reach : Reach (fresh e) m)
    → (view m).made ++ (view m).todo ≡ all_posted reach
Reach-order e here = refl
Reach-order e (next reach step) =
    FifoStep-append (Step-FifoStep step (Reach-OneWorker reach (refl, refl)))
    ∙ ap (λ calls. calls ++ posted step) (Reach-order e reach)
