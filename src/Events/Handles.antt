-- ===== src/Events/Handles.antt =====
-- The handles of the thread of core/src/internal/event_system.c, and how callbacks_call moves the worker.
use azure_iot_gateway_sdk.Base.{
  ◌≡◌, refl, ◌∙◌, inl, inr, Bool, true, false, List, [], ◌∷◌, ◌&&◌, not, Bool-cases, arith,
}
use azure_iot_gateway_sdk.Gateway.Env.{Env, GatewayEvent}
use azure_iot_gateway_sdk.Events.State.{CallbackClosure, ThreadQueueRow, EventSystem, thread_join}
use azure_iot_gateway_sdk.Events.Init.{new_event_system}
use azure_iot_gateway_sdk.Events.Report.{
  push_callback, queue_row, join_destroyed, create_thread, start_thread,
}
use azure_iot_gateway_sdk.Events.Worker.{
  Worker, absent, polling, waiting, leaving, ended, calling, Machine, was_created, joined,
  worker_after, set_beside, strays_after,
}

-- Before anything is registered or reported.
abbrev pub fresh : Env → Machine
fresh e = record {
  system = new_event_system;
  worker = absent;
  strays = [];
  env = e;
  ready = [];
  starting = [];
  called = [];
}

abbrev pub is_running : Worker → Bool
is_running absent = false
is_running polling = true
is_running waiting = true
is_running leaving = true
is_running ended = false
is_running (calling row closures) = true

abbrev pub is_ended : Worker → Bool
is_ended absent = false
is_ended polling = false
is_ended waiting = false
is_ended leaving = false
is_ended ended = true
is_ended (calling row closures) = false

-- A running worker's handle is callback_thread, and that of one to join is destroyed_thread.
abbrev pub OneWorker : EventSystem → Worker → Type 0
OneWorker es w = (es.callback_thread ≡ is_running w) × (es.destroyed_thread ≡ is_ended w)

-- How the worker may go on.
pub data Moves : Worker → Worker → Type 0 where
  stays : (w : Worker) → Moves w w
  created : Moves absent polling
  was_joined : Moves ended absent
  replaced : Moves ended polling
  waits : Moves polling waiting
  takes : (row : ThreadQueueRow) → Moves polling (calling row row.callbacks)
  gives_up : Moves polling leaving
  wakes : (row : ThreadQueueRow) → Moves waiting (calling row row.callbacks)
  times_out : Moves waiting leaving
  calls :
      (row : ThreadQueueRow) (closure : CallbackClosure) (closures : List CallbackClosure)
      → Moves (calling row (closure ∷ closures)) (calling row closures)
  goes_on : (row : ThreadQueueRow) → Moves (calling row []) polling
  ends : Moves leaving ended

abbrev pub Keeps : EventSystem → EventSystem → Type 0
Keeps es es' =
    (es'.callback_thread ≡ es.callback_thread)
    × (es'.destroyed_thread ≡ es.destroyed_thread)
    × (es'.delay_when_queue_empty ≡ es.delay_when_queue_empty)

pub push_callback-Keeps :
    (es : EventSystem) (event : GatewayEvent) (closure : CallbackClosure) (e : Env)
    → Keeps es (push_callback es event closure e).0
unfolding push_callback
push_callback-Keeps es event closure e = elim (Bool-cases (e.world.oracle e.world.calls)) [
  | inl pushed ↦ rw pushed (refl, refl, refl)
  | inr failed ↦ rw failed (refl, refl, refl)
]

pub queue_row-Keeps :
    (row : ThreadQueueRow) (es : EventSystem) (e : Env) → Keeps es (queue_row row es e).0.1
unfolding queue_row
queue_row-Keeps row es e = ground arith

-- One move of the worker that keeps the handles right.
abbrev pub Lives : Worker → EventSystem × Worker → Type 0
Lives w (es', w') = OneWorker es' w' × Moves w w'

create_thread-flags :
    (queued : Bool) (es : EventSystem) (e : Env)
    → let es' = (create_thread queued es e).0 in
      (es'.destroyed_thread ≡ es.destroyed_thread)
      × (es'.thread_queue ≡ es.thread_queue)
      × (es.callback_thread ≡ true → es'.callback_thread ≡ true)
unfolding create_thread
create_thread-flags false es e = (refl, refl, λ h. h)
create_thread-flags true es e = (ground arith, ground arith, λ there. ground arith)

pub start_thread-flags :
    (queued : Bool) (es : EventSystem) (e : Env)
    → let es' = (start_thread queued es e).0 in
      (es'.destroyed_thread ≡ false)
      × (es'.thread_queue ≡ es.thread_queue)
      × (es.callback_thread ≡ true → es'.callback_thread ≡ true)
unfolding start_thread join_destroyed
start_thread-flags queued es e = elim (Bool-cases es.destroyed_thread) [
  | inl there ↦
      simp there
        (create_thread-flags queued (record es { destroyed_thread = false }) (thread_join e).1)
  | inr none_there ↦
      let (kept, same, running) = create_thread-flags queued es e in
      simp none_there (kept ∙ none_there, same, running)
]

-- A thread is created exactly where the handle that was not there is there now.
create_thread-created :
    (queued : Bool) (es : EventSystem) (e : Env)
    → let (es', e') = create_thread queued es e in
      was_created e e' ≡ (es'.callback_thread && not es.callback_thread)
unfolding create_thread
create_thread-created false es e = ground arith
create_thread-created true es e = ground arith

pub start_thread-created :
    (queued : Bool) (es : EventSystem) (e : Env)
    → let (es', e') = start_thread queued es e in
      was_created (join_destroyed es e).1 e' ≡ (es'.callback_thread && not es.callback_thread)
unfolding start_thread join_destroyed
start_thread-created queued es e = elim (Bool-cases es.destroyed_thread) [
  | inl there ↦
      simp there
        (create_thread-created queued (record es { destroyed_thread = false }) (thread_join e).1)
  | inr none_there ↦ simp none_there (create_thread-created queued es e)
]

pub worker_after-Lives :
    (created_now : Bool) (es es' : EventSystem) (w : Worker)
    → OneWorker es w
    → es'.destroyed_thread ≡ false
    → (es.callback_thread ≡ true → es'.callback_thread ≡ true)
    → created_now ≡ (es'.callback_thread && not es.callback_thread)
    → Lives w (es', worker_after created_now es w)
unfolding worker_after joined
worker_after-Lives true es es' absent h d c made = ((ground arith, d), created)
worker_after-Lives false es es' absent h d c made = rw h.1 ((ground arith, d), stays absent)
worker_after-Lives true es es' ended h d c made = ((ground arith, d), replaced)
worker_after-Lives false es es' ended h d c made = rw h.1 ((ground arith, d), was_joined)
worker_after-Lives true es es' polling h d c made = absurd (ground arith)
worker_after-Lives false es es' polling h d c made = rw h.1 ((c h.0, d), stays polling)
worker_after-Lives true es es' waiting h d c made = absurd (ground arith)
worker_after-Lives false es es' waiting h d c made = rw h.1 ((c h.0, d), stays waiting)
worker_after-Lives true es es' leaving h d c made = absurd (ground arith)
worker_after-Lives false es es' leaving h d c made = rw h.1 ((c h.0, d), stays leaving)
worker_after-Lives true es es' (calling row closures) h d c made = absurd (ground arith)
worker_after-Lives false es es' (calling row closures) h d c made =
    rw h.1 ((c h.0, d), stays (calling row closures))

pub strays_after-same :
    (created_now : Bool) (es es' : EventSystem) (w : Worker) (strays : List Worker)
    → OneWorker es w
    → created_now ≡ (es'.callback_thread && not es.callback_thread)
    → strays_after created_now es w strays ≡ strays
unfolding strays_after joined set_beside
strays_after-same false es es' w strays h made = refl
strays_after-same true es es' absent strays h made = rw h.1 refl
strays_after-same true es es' ended strays h made = rw h.1 refl
strays_after-same true es es' polling strays h made = absurd (ground arith)
strays_after-same true es es' waiting strays h made = absurd (ground arith)
strays_after-same true es es' leaving strays h made = absurd (ground arith)
strays_after-same true es es' (calling row closures) strays h made = absurd (ground arith)
