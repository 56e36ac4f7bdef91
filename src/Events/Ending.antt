-- ===== src/Events/Ending.antt =====
-- destroy_event_system (core/src/internal/event_system.c) gives back what the event system holds.
use azure_iot_gateway_sdk.Base.{
  ℕ, ◌+◌, ◌≡◌, refl, ap, ◌∙◌, Bool, true, false, Option, some, none, List, [], ◌∷◌, ◌++◌, length,
  map, arith,
}
use azure_iot_gateway_sdk.Gateway.Env.{Env}
use azure_iot_gateway_sdk.Gateway.ModuleList.{
  GatewayModuleInfo, destroy_sources, gateway_destroymodulelist_internal,
  gateway_ll_destroy_module_list,
}
use azure_iot_gateway_sdk.Events.State.{
  Callback, client, callback_destroy_modulelist, CallbackClosure, ThreadQueueRow, EventSystem,
  thread_join,
}
use azure_iot_gateway_sdk.Events.Init.{all_parts, unless_null, destroy_vectors, destroy_parts}
use azure_iot_gateway_sdk.Events.Worker.{
  Worker, absent, polling, waiting, leaving, ended, calling, Call, call_of, run_callback,
  destroy_thread_row,
}
use azure_iot_gateway_sdk.Events.Startup.{Owned, owned, one_if, with_parts}
use azure_iot_gateway_sdk.Events.Order.{hand, calls_of, queued_calls}
use azure_iot_gateway_sdk.Events.Destroy.{
  call_closures, drain, run_worker, destroy_rows, destroy_event_system,
}

-- What is held, but for vectors: lists of modules are vectors of vectors.
abbrev pub bare : Owned → Owned
bare o = record o { vectors = 0 }

abbrev pub with_memory : ℕ → Owned → Owned
with_memory n o = record o { memory = o.memory + n }

destroy_sources-bare :
    (sources : Option (List (List ℕ))) (e : Env)
    → bare (owned (destroy_sources sources e).1) ≡ bare (owned e)
unfolding destroy_sources
destroy_sources-bare none e = refl
destroy_sources-bare (some sources) e = refl

destroymodulelist-bare :
    (infos : List GatewayModuleInfo) (e : Env)
    → bare (owned (gateway_destroymodulelist_internal infos e).1) ≡ bare (owned e)
unfolding gateway_destroymodulelist_internal
destroymodulelist-bare [] e = refl
destroymodulelist-bare (info ∷ infos) e =
    destroymodulelist-bare infos (destroy_sources info.module_sources e).1
    ∙ destroy_sources-bare info.module_sources e

run_callback-bare :
    (call : Callback) (context : Option (List GatewayModuleInfo)) (e : Env)
    → bare (owned (run_callback call context e).1) ≡ bare (owned e)
unfolding run_callback gateway_ll_destroy_module_list
run_callback-bare (client address) context e = refl
run_callback-bare callback_destroy_modulelist none e = refl
run_callback-bare callback_destroy_modulelist (some modules) e = destroymodulelist-bare modules e

-- The row that the worker has in hand.
abbrev pub in_hand : Worker → ℕ
in_hand absent = 0
in_hand polling = 0
in_hand waiting = 0
in_hand leaving = 0
in_hand ended = 0
in_hand (calling row closures) = 1

module _ (o : Owned) where
  call_closures-bare :
      (n : ℕ) (row : ThreadQueueRow) (closures : List CallbackClosure) (e : Env)
      → bare (owned e) ≡ with_memory (n + 1) o
      → bare (owned (call_closures row closures e).1) ≡ with_memory n o
  unfolding call_closures destroy_thread_row
  call_closures-bare n row [] e h = ground arith
  call_closures-bare n row (closure ∷ closures) e h =
      call_closures-bare n row closures (run_callback closure.call row.context e).1
        (run_callback-bare closure.call row.context e ∙ h)

  drain-bare :
      (rows : List ThreadQueueRow) (e : Env)
      → bare (owned e) ≡ with_memory (length rows) o
      → bare (owned (drain rows e).1) ≡ with_memory 0 o
  unfolding drain
  drain-bare [] e h = h
  drain-bare (row ∷ rows) e h = drain-bare rows (call_closures row row.callbacks e).1 (
      call_closures-bare (length rows) row row.callbacks e
        (h ∙ ap (λ n. with_memory n o) (omega arith)))

  destroy_rows-bare :
      (rows : List ThreadQueueRow) (e : Env)
      → bare (owned e) ≡ with_memory (length rows) o
      → bare (owned (destroy_rows rows e).1) ≡ with_memory 0 o
  unfolding destroy_rows destroy_thread_row
  destroy_rows-bare [] e h = h
  destroy_rows-bare (row ∷ rows) e h =
      destroy_rows-bare rows (destroy_thread_row row e).1 (ground arith)

  run_worker-bare :
      (w : Worker) (rows : List ThreadQueueRow) (e : Env)
      → bare (owned e) ≡ with_memory (in_hand w + length rows) o
      → let r = run_worker w rows e in bare (owned r.1) ≡ with_memory (length r.0.1) o
  unfolding run_worker
  run_worker-bare absent rows e h = h ∙ ap (λ n. with_memory n o) (omega arith)
  run_worker-bare leaving rows e h = h ∙ ap (λ n. with_memory n o) (omega arith)
  run_worker-bare ended rows e h = h ∙ ap (λ n. with_memory n o) (omega arith)
  run_worker-bare polling rows e h = drain-bare rows e (h ∙ ap (λ n. with_memory n o) (omega arith))
  run_worker-bare waiting rows e h = drain-bare rows e (h ∙ ap (λ n. with_memory n o) (omega arith))
  run_worker-bare (calling row closures) rows e h =
      drain-bare rows (call_closures row closures e).1 (
        call_closures-bare (length rows) row closures e
          (h ∙ ap (λ n. with_memory n o) (omega arith)))

-- The calls that are left to a worker that still looks for rows; one that has given up makes none.
abbrev pub calls_left : Worker → List ThreadQueueRow → List Call
calls_left absent rows = []
calls_left leaving rows = []
calls_left ended rows = []
calls_left polling rows = queued_calls rows
calls_left waiting rows = queued_calls rows
calls_left (calling row closures) rows = hand (calling row closures) ++ queued_calls rows

call_closures-calls :
    (row : ThreadQueueRow) (closures : List CallbackClosure) (e : Env)
    → (call_closures row closures e).0 ≡ map (call_of row) closures
unfolding call_closures
call_closures-calls row [] e = refl
call_closures-calls row (closure ∷ closures) e =
    ap (λ calls. call_of row closure ∷ calls)
      (call_closures-calls row closures (run_callback closure.call row.context e).1)

drain-calls : (rows : List ThreadQueueRow) (e : Env) → (drain rows e).0 ≡ queued_calls rows
unfolding drain
drain-calls [] e = refl
drain-calls (row ∷ rows) e =
    ap (λ calls. calls ++ (drain rows (call_closures row row.callbacks e).1).0)
      (call_closures-calls row row.callbacks e)
    ∙ ap (λ calls. calls_of row ++ calls) (drain-calls rows (call_closures row row.callbacks e).1)

run_worker-calls :
    (w : Worker) (rows : List ThreadQueueRow) (e : Env)
    → (run_worker w rows e).0.0 ≡ calls_left w rows
unfolding run_worker
run_worker-calls absent rows e = refl
run_worker-calls leaving rows e = refl
run_worker-calls ended rows e = refl
run_worker-calls polling rows e = drain-calls rows e
run_worker-calls waiting rows e = drain-calls rows e
run_worker-calls (calling row closures) rows e =
    ap (λ calls. calls ++ (drain rows (call_closures row closures e).1).0)
      (call_closures-calls row closures e)
    ∙ ap (λ calls. hand (calling row closures) ++ calls)
        (drain-calls rows (call_closures row closures e).1)

thread_join-bare :
    (b : Bool) (o : Owned) (e : Env)
    → bare (owned e) ≡ record o { threads = o.threads + one_if b }
    → bare (owned (unless_null b thread_join e).1) ≡ o
unfolding unless_null
thread_join-bare true o e h = ground arith
thread_join-bare false o e h = ground arith

destroy_parts-bare :
    (o : Owned) (e : Env)
    → bare (owned e) ≡ bare (with_parts all_parts o)
    → bare (owned (destroy_parts all_parts e).1) ≡ bare o
unfolding destroy_parts unless_null destroy_vectors
destroy_parts-bare o e h = ground arith

-- What an event system holds beside the vectors, with its worker.
abbrev pub whole : EventSystem → Worker → Owned → Owned
whole es w o = record o {
  memory = o.memory + 1 + (in_hand w + length es.thread_queue);
  locks = o.locks + 1 + 1;
  conditions = o.conditions + 1;
  lists = o.lists + 1;
  threads = o.threads + one_if es.destroyed_thread + one_if es.callback_thread;
}

-- EventSystem_Destroy of an event system that holds its parts, its queued rows, the row that the worker has in
-- hand and its threads: it holds no memory, locks, conditions, lists and threads afterwards, and meanwhile the
-- worker, if it still looks for rows, makes all calls that are left in their order; a worker that has given
-- up makes none, and the rows on the queue are freed uncalled.
pub destroy_event_system-Ended :
    (es : EventSystem) (w : Worker) (o : Owned) (e : Env)
    → bare (owned e) ≡ bare (whole es w o)
    → let r = destroy_event_system (some (es, w)) e in
      (bare (owned r.1) ≡ bare o) × (r.0 ≡ calls_left w es.thread_queue)
unfolding destroy_event_system
destroy_event_system-Ended es w o e h =
    let o3 : Owned = bare (with_parts all_parts o) in
    let o2 : Owned = record o3 { threads = o.threads + one_if es.destroyed_thread } in
    let o1 : Owned = record o2 {
      threads = o.threads + one_if es.destroyed_thread + one_if es.callback_thread;
    } in
    let ((calls, rows), e1) = run_worker w es.thread_queue e in
    let n = length rows in
    let e2 = (unless_null es.callback_thread thread_join e1).1 in
    let e3 = (unless_null es.destroyed_thread thread_join e2).1 in
    let e4 = (destroy_rows rows e3).1 in
    let h1 = run_worker-bare o1 w es.thread_queue e h in
    let h2 = thread_join-bare es.callback_thread (with_memory n o2) e1 h1 in
    let h3 = thread_join-bare es.destroyed_thread (with_memory n o3) e2 h2 in
    let h4 = destroy_rows-bare o3 rows e3 h3 in
    (destroy_parts-bare o e4 (h4 ∙ ground arith), run_worker-calls w es.thread_queue e)
