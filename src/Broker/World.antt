-- ===== src/Broker/World.antt =====
-- What core/src/broker.c calls outside of the repository: memory, locks, strings, lists and threads
-- of azure-c-shared-utility, and nanomsg sockets.
use azure_iot_gateway_sdk.Base.{ℕ, ◌+◌, ◌-◌, Bool, List, ◌∷◌, if◌then◌else◌}

-- `oracle n` says whether the call number `n` that may fail succeeds, and `guids n` is the unique id
-- that it makes, if it makes one. The counters are what is held of each kind.
pub record World : Type 0 where
  pub oracle : ℕ → Bool
  pub guids : ℕ → List ℕ
  pub calls : ℕ
  pub memory : ℕ
  pub locks : ℕ
  pub strings : ℕ
  pub sockets : ℕ
  pub threads : ℕ
  pub lists : ℕ
  -- Buffers of nn_allocmsg.
  pub buffers : ℕ
  -- What was sent on the publish socket, last first.
  pub sent : List (List ℕ)

abbrev pub M : Type 0 → Type 0
M A = World → A × World

abbrev pub pure : {A : Type 0} → A → M A
pure a w = (a, w)

infixl 5 ◌>>=◌ ◌>>◌
abbrev pub ◌>>=◌ : {A B : Type 0} → M A → (A → M B) → M B
◌>>=◌ m f w = let (a, w') = m w in f a w'

abbrev pub ◌>>◌ : {B : Type 0} → M (Unit {0}) → M B → M B
m >> k = m >>= λ _. k

-- A call that may fail and gives nothing to hold.
abbrev pub ask : M Bool
ask w = (w.oracle w.calls, record w { calls = w.calls + 1 })

-- A call that gives something to hold, if it succeeds.
abbrev pub acquire : (World → World) → M Bool
acquire grow w =
    let w' = record w { calls = w.calls + 1 } in
    (w.oracle w.calls, if w.oracle w.calls then grow w' else w')

abbrev pub modify : (World → World) → M (Unit {0})
modify f w = (tt, f w)

abbrev pub malloc : M Bool
malloc = acquire λ w. record w { memory = w.memory + 1 }

abbrev pub free : M (Unit {0})
free = modify λ w. record w { memory = w.memory - 1 }

abbrev pub lock_init : M Bool
lock_init = acquire λ w. record w { locks = w.locks + 1 }

abbrev pub lock_deinit : M (Unit {0})
lock_deinit = modify λ w. record w { locks = w.locks - 1 }

abbrev pub string_construct : M Bool
string_construct = acquire λ w. record w { strings = w.strings + 1 }

abbrev pub string_delete : M (Unit {0})
string_delete = modify λ w. record w { strings = w.strings - 1 }

abbrev pub list_create : M Bool
list_create = acquire λ w. record w { lists = w.lists + 1 }

abbrev pub list_destroy : M (Unit {0})
list_destroy = modify λ w. record w { lists = w.lists - 1 }

abbrev pub nn_socket : M Bool
nn_socket = acquire λ w. record w { sockets = w.sockets + 1 }

-- The socket is gone; the return code is only logged.
abbrev pub nn_close : M (Unit {0})
nn_close = modify λ w. record w { sockets = w.sockets - 1 }

abbrev pub thread_create : M Bool
thread_create = acquire λ w. record w { threads = w.threads + 1 }

-- A join that succeeds has waited for the end of the thread.
abbrev pub thread_join : M Bool
thread_join = acquire λ w. record w { threads = w.threads - 1 }

-- UniqueId_Generate: whether it succeeds, and the id.
abbrev pub unique_id : M (Bool × List ℕ)
unique_id w = ((w.oracle w.calls, w.guids w.calls), record w { calls = w.calls + 1 })

abbrev pub nn_send : List ℕ → M Bool
nn_send frame = acquire λ w. record w { sent = frame ∷ w.sent }
