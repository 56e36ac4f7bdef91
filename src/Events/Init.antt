-- ===== src/Events/Init.antt =====
-- core/src/internal/event_system.c: EventSystem_Init, with what destroy_event_system gives back.
use azure_iot_gateway_sdk.Base.{
  ℕ, zero, suc, ◌+◌, Bool, true, false, ◌&&◌, Option, some, none, [], if◌then◌else◌,
}
use azure_iot_gateway_sdk.Gateway.Env.{
  G, pure, ◌>>=◌, ◌>>◌, malloc, free, vector_create, vector_destroy,
}
use azure_iot_gateway_sdk.Events.State.{
  EventSystem, gateway_events_count, lock_init, lock_deinit, condition_init, condition_deinit,
  list_create, list_destroy,
}

-- What an event system holds, which is filled in step by step: whether its locks, its condition and
-- its queue are there, and how many of its vectors.
pub record Parts : Type 0 where
  pub internal_change_lock : Bool
  pub thread_queue_lock : Bool
  pub thread_queue_condition : Bool
  pub event_callbacks : ℕ
  pub thread_queue : Bool

abbrev pub all_parts : Parts
all_parts = record {
  internal_change_lock = true;
  thread_queue_lock = true;
  thread_queue_condition = true;
  event_callbacks = gateway_events_count;
  thread_queue = true;
}

-- The platform ignores a null pointer that is given back.
unfoldable pub unless_null : Bool → G (Unit {0}) → G (Unit {0})
unless_null true give_back = give_back
unless_null false give_back = pure tt

unfoldable pub destroy_vectors : ℕ → G (Unit {0})
destroy_vectors zero = pure tt
destroy_vectors (suc n) = do vector_destroy; destroy_vectors n

unfoldable pub destroy_parts : Parts → G (Unit {0})
destroy_parts p = do
  unless_null p.thread_queue_condition condition_deinit
  unless_null p.thread_queue_lock lock_deinit
  unless_null p.internal_change_lock lock_deinit
  unless_null p.thread_queue list_destroy
  destroy_vectors p.event_callbacks
  free

abbrev pub new_event_system : EventSystem
new_event_system = record {
  event_callbacks = λ event. [];
  is_errored = false;
  delay_when_queue_empty = true;
  callback_thread = false;
  destroyed_thread = false;
  thread_queue = [];
}

unfoldable pub with_vectors : Parts → G (Option EventSystem)
with_vectors p = do
  thread_queue ← list_create
  if thread_queue then pure (some new_event_system) else (do destroy_parts p; pure none)

unfoldable pub with_vector : Bool → Parts → G (Option EventSystem) → G (Option EventSystem)
with_vector true p next = next
with_vector false p next = do destroy_parts p; pure none

-- The loop, with the vectors that are left to make.
unfoldable pub create_vectors : ℕ → Parts → G (Option EventSystem)
create_vectors zero p = with_vectors p
create_vectors (suc n) p = do
  event_callbacks ← vector_create
  with_vector event_callbacks p
      (create_vectors n (record p { event_callbacks = p.event_callbacks + 1 }))

unfoldable pub with_locks : Parts → G (Option EventSystem)
with_locks p =
    if p.internal_change_lock && p.thread_queue_lock && p.thread_queue_condition
    then create_vectors gateway_events_count p
    else (do destroy_parts p; pure none)

unfoldable pub init : G (Option EventSystem)
init = do
  result ← malloc
  if result
      then (do
        internal_change ← lock_init
        queue ← lock_init
        condition ← condition_init
        with_locks (record {
          internal_change_lock = internal_change;
          thread_queue_lock = queue;
          thread_queue_condition = condition;
          event_callbacks = 0;
          thread_queue = false;
        }))
      else pure none
