-- ===== src/Events/Startup.antt =====
-- EventSystem_Init (core/src/internal/event_system.c) gives a whole event system, or gives back all it took.
use azure_iot_gateway_sdk.Base.{
  ℕ, zero, suc, ◌+◌, ◌-◌, ◌≡◌, refl, inl, inr, Bool, true, false, ◌&&◌, Option, some, none,
  Bool-cases, arith,
}
use azure_iot_gateway_sdk.Gateway.Env.{Env}
use azure_iot_gateway_sdk.Events.State.{
  EventSystem, gateway_events_count, lock_init, condition_init, lock_deinit, condition_deinit,
  list_destroy,
}
use azure_iot_gateway_sdk.Events.Init.{
  Parts, unless_null, destroy_vectors, destroy_parts, all_parts, new_event_system, with_vectors,
  with_vector, create_vectors, with_locks, init,
}

-- What is held of each kind that the event system uses.
pub record Owned : Type 0 where
  pub memory : ℕ
  pub locks : ℕ
  pub conditions : ℕ
  pub lists : ℕ
  pub threads : ℕ
  pub vectors : ℕ

abbrev pub owned : Env → Owned
owned e = record {
  memory = e.world.memory;
  locks = e.world.locks;
  conditions = e.conditions;
  lists = e.world.lists;
  threads = e.world.threads;
  vectors = e.vectors;
}

abbrev pub one_if : Bool → ℕ
one_if true = 1
one_if false = 0

abbrev pub with_parts : Parts → Owned → Owned
with_parts p o = record o {
  memory = o.memory + 1;
  locks = o.locks + one_if p.internal_change_lock + one_if p.thread_queue_lock;
  conditions = o.conditions + one_if p.thread_queue_condition;
  lists = o.lists + one_if p.thread_queue;
  vectors = o.vectors + p.event_callbacks;
}

destroy_vectors-owned :
    (n : ℕ) (o : Owned) (e : Env)
    → owned e ≡ record o { vectors = o.vectors + n }
    → owned (destroy_vectors n e).1 ≡ o
unfolding destroy_vectors
destroy_vectors-owned zero o e h = ground arith
destroy_vectors-owned (suc n) o e h =
    destroy_vectors-owned n o (record e { vectors = e.vectors - 1 }) (ground arith)

condition_deinit-owned :
    (b : Bool) (o : Owned) (e : Env)
    → owned e ≡ record o { conditions = o.conditions + one_if b }
    → owned (unless_null b condition_deinit e).1 ≡ o
unfolding unless_null
condition_deinit-owned true o e h = ground arith
condition_deinit-owned false o e h = ground arith

lock_deinit-owned :
    (b : Bool) (o : Owned) (e : Env)
    → owned e ≡ record o { locks = o.locks + one_if b }
    → owned (unless_null b lock_deinit e).1 ≡ o
unfolding unless_null
lock_deinit-owned true o e h = ground arith
lock_deinit-owned false o e h = ground arith

list_destroy-owned :
    (b : Bool) (o : Owned) (e : Env)
    → owned e ≡ record o { lists = o.lists + one_if b }
    → owned (unless_null b list_destroy e).1 ≡ o
unfolding unless_null
list_destroy-owned true o e h = ground arith
list_destroy-owned false o e h = ground arith

pub destroy_parts-owned :
    (p : Parts) (o : Owned) (e : Env) → owned e ≡ with_parts p o → owned (destroy_parts p e).1 ≡ o
unfolding destroy_parts
destroy_parts-owned p o e h =
    let o4 : Owned = record o { memory = o.memory + 1 } in
    let o3 : Owned = record o4 { vectors = o.vectors + p.event_callbacks } in
    let o2 : Owned = record o3 { lists = o.lists + one_if p.thread_queue } in
    let o1 : Owned = record o2 { locks = o.locks + one_if p.internal_change_lock } in
    let o0 : Owned = record o2 {
      locks = o.locks + one_if p.internal_change_lock + one_if p.thread_queue_lock;
    } in
    let e0 = (unless_null p.thread_queue_condition condition_deinit e).1 in
    let e1 = (unless_null p.thread_queue_lock lock_deinit e0).1 in
    let e2 = (unless_null p.internal_change_lock lock_deinit e1).1 in
    let e3 = (unless_null p.thread_queue list_destroy e2).1 in
    let h0 = condition_deinit-owned p.thread_queue_condition o0 e h in
    let h1 = lock_deinit-owned p.thread_queue_lock o1 e0 h0 in
    let h2 = lock_deinit-owned p.internal_change_lock o2 e1 h1 in
    let h3 = list_destroy-owned p.thread_queue o3 e2 h2 in
    let h4 = destroy_vectors-owned p.event_callbacks o4 e3 h3 in ground arith

-- A null pointer is returned with nothing held that was not held, a system with all its parts.
abbrev pub Started : Owned → Option EventSystem × Env → Type 0
Started o (none, e) = owned e ≡ o
Started o (some es, e) = (es ≡ new_event_system) × (owned e ≡ with_parts all_parts o)

module _ (o : Owned) where
  with_vectors-Started :
      (p : Parts) (e : Env)
      → p ≡ record all_parts { thread_queue = false }
      → owned e ≡ with_parts p o
      → Started o (with_vectors p e)
  unfolding with_vectors
  with_vectors-Started p e whole h = elim (Bool-cases (e.world.oracle e.world.calls)) [
    | inl made ↦ rw (made, with_vectors) (refl, ground arith)
    | inr failed ↦
        rw (failed, with_vectors)
          (destroy_parts-owned p o
            (record e { world = record e.world { calls = e.world.calls + 1 } }) (ground arith))
  ]

  create_vectors-Started :
      (n : ℕ) (p : Parts) (e : Env)
      → p ≡ record all_parts { thread_queue = false; event_callbacks = p.event_callbacks }
      → p.event_callbacks + n ≡ gateway_events_count
      → owned e ≡ with_parts p o
      → Started o (create_vectors n p e)
  unfolding create_vectors with_vector
  create_vectors-Started zero p e whole count h = with_vectors-Started p e (ground arith) h
  create_vectors-Started (suc n) p e whole count h =
      elim (Bool-cases (e.world.oracle e.world.calls)) [
        | inl made ↦
            rw (made, create_vectors, with_vector)
              (create_vectors-Started n (record p { event_callbacks = p.event_callbacks + 1 })
                (record e {
                  world = record e.world { calls = e.world.calls + 1 };
                  vectors = e.vectors + 1;
                })
                (ground arith) (omega arith) (ground arith))
        | inr failed ↦
            rw (failed, create_vectors, with_vector)
              (destroy_parts-owned p o
                (record e { world = record e.world { calls = e.world.calls + 1 } }) (ground arith))
      ]

  with_locks-Started :
      (p : Parts) (e : Env)
      → p.event_callbacks ≡ 0
      → p.thread_queue ≡ false
      → owned e ≡ with_parts p o
      → Started o (with_locks p e)
  unfolding with_locks
  with_locks-Started p e no_vectors no_queue h =
      elim (Bool-cases
        (p.internal_change_lock && p.thread_queue_lock && p.thread_queue_condition)) [
          | inl made ↦
              rw (made, with_locks)
                (create_vectors-Started gateway_events_count p e (ground arith) (omega arith) h)
          | inr failed ↦ rw (failed, with_locks) (destroy_parts-owned p o e h)
        ]

lock_init-owned :
    (e : Env)
    → owned (lock_init e).1 ≡ record (owned e) { locks = e.world.locks + one_if (lock_init e).0 }
lock_init-owned e = elim (Bool-cases (e.world.oracle e.world.calls)) [
  | inl made ↦ rw made refl
  | inr failed ↦ rw failed (ground arith)
]

condition_init-owned :
    (e : Env)
    → owned (condition_init e).1
      ≡ record (owned e) { conditions = e.conditions + one_if (condition_init e).0 }
condition_init-owned e = elim (Bool-cases (e.world.oracle e.world.calls)) [
  | inl made ↦ rw made refl
  | inr failed ↦ rw failed (ground arith)
]

after_locks :
    (o : Owned) (a b c : Bool) (e1 e2 e3 e4 : Env)
    → owned e1 ≡ record o { memory = o.memory + 1 }
    → owned e2 ≡ record (owned e1) { locks = e1.world.locks + one_if a }
    → owned e3 ≡ record (owned e2) { locks = e2.world.locks + one_if b }
    → owned e4 ≡ record (owned e3) { conditions = e3.conditions + one_if c }
    → owned e4
      ≡ with_parts
          (record {
            internal_change_lock = a;
            thread_queue_lock = b;
            thread_queue_condition = c;
            event_callbacks = 0;
            thread_queue = false;
          })
          o
after_locks o a b c e1 e2 e3 e4 h1 h2 h3 h4 = ground arith

-- EventSystem_Init, whichever of its calls fail, returns a null pointer and holds no more memory, locks,
-- conditions, lists, threads and vectors than before, or returns an event system that is not errored,
-- with no callback, no thread and an empty queue, and holds the parts of one event system more.
pub init-Started : (e : Env) → Started (owned e) (init e)
unfolding init
init-Started e = elim (Bool-cases (e.world.oracle e.world.calls)) [
  | inr failed ↦ rw (failed, init) refl
  | inl made ↦
      let e1 : Env = record e {
        world = record e.world { calls = e.world.calls + 1; memory = e.world.memory + 1 };
      } in
      let (internal_change, e2) = lock_init e1 in
      let (thread_queue, e3) = lock_init e2 in
      let (condition, e4) = condition_init e3 in
      rw (made, init)
        (with_locks-Started (owned e)
          (record {
            internal_change_lock = internal_change;
            thread_queue_lock = thread_queue;
            thread_queue_condition = condition;
            event_callbacks = 0;
            thread_queue = false;
          })
          e4 refl refl
          (after_locks (owned e) internal_change thread_queue condition e1 e2 e3 e4 refl
            (lock_init-owned e1) (lock_init-owned e2) (condition_init-owned e3)))
]
