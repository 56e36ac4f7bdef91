-- ===== src/Broker/Worker.antt =====
-- core/src/broker.c: module_worker, the loop of a module's thread.
use azure_iot_gateway_sdk.Base.{
  ℕ, zero, suc, ◌+◌, ◌-◌, ◌%◌, ◌^◌, Bool, true, false, Option, some, none, List, [], ◌∷◌, length,
  drop, ltb, ◌==◌, if◌then◌else◌,
}
use azure_iot_gateway_sdk.Base.Int.{ℤ, signed32}
use azure_iot_gateway_sdk.Base.Outcome.{Outcome, ok, fault, ◌>>=◌}
use azure_iot_gateway_sdk.Message.Shared.{SharedLib, Ledger}
use azure_iot_gateway_sdk.Message.Handle.{MessageData, destroy}
use azure_iot_gateway_sdk.Message.Parse.{create_from_byte_array}
use azure_iot_gateway_sdk.Broker.State.{Topic}

-- What the calls of one round return: `Lock`, `nn_recv` (`none` is an error) and `Unlock`.
pub record Round : Type 0 where
  pub locks : Bool
  pub received : Option (List ℕ)
  pub unlocks : Bool

-- The messages for which Module_Receive was called, in order; the number of calls of nn_freemsg; what
-- the message library holds; and whether the thread still waits for a message.
pub record WorkerRun (s : SharedLib) : Type 0 where
  pub delivered : List (MessageData s)
  pub freed : ℕ
  pub ledger : Ledger
  pub running : Bool

-- `strncmp(text, bytes, n) == 0` for a text with its terminator at the end of the list. It reads a byte
-- of each as long as they agree and none was the terminator.
unfoldable pub strncmp_eq : ℕ → List ℕ → List ℕ → Outcome Bool
strncmp_eq zero text bytes = ok true
strncmp_eq (suc n) text [] = fault
strncmp_eq (suc n) [] (b ∷ bytes) = ok (b == 0)
strncmp_eq (suc n) (a ∷ text) (b ∷ bytes) =
    let rest = strncmp_eq n text bytes in
    if a == b then (if a == 0 then ok true else rest) else ok false

unfoldable pub is_quit : Topic → List ℕ → Outcome Bool
is_quit guid buf = if length buf == 37 then strncmp_eq 36 guid buf else ok false

-- `nbytes - sizeof(MODULE_HANDLE)` as the `int32_t` argument that it becomes.
abbrev pub payload_size : ℕ → ℤ
payload_size nbytes = signed32 ((nbytes + 2 ^ 64 - 8) % 2 ^ 64 % 2 ^ 32)

module _ (s : SharedLib) where
  abbrev stopped : ℕ → Ledger → WorkerRun s
  stopped freed l = record { delivered = []; freed = freed; ledger = l; running = false }

  -- `nn_freemsg` calls where `Unlock` failed.
  unfoldable pub free_unread : Option (List ℕ) → ℕ
  free_unread none = 0
  free_unread (some buf) = if ltb 0 (length buf) then 1 else 0

  -- One round; `next` is the rest of the loop. A message that is made is delivered and destroyed.
  unfoldable pub deliver :
      Option (MessageData s) × Ledger → (Ledger → Outcome (WorkerRun s)) → Outcome (WorkerRun s)
  deliver (none, l) next = do rest ← next l; ok (record rest { freed = rest.freed + 1 })
  deliver (some m, l) next = do
    rest ← next (destroy s (some m) l).1
    ok (record rest { delivered = m ∷ rest.delivered; freed = rest.freed + 1 })

  unfoldable pub read_frame :
      Bool → List ℕ → Ledger → (Ledger → Outcome (WorkerRun s)) → Outcome (WorkerRun s)
  read_frame true buf l next = ok (stopped 1 l)
  read_frame false buf l next = do
    made ← create_from_byte_array s (some (drop 8 buf)) (payload_size (length buf)) l
    deliver made next

  unfoldable pub worker_round :
      Topic
      → Bool
      → Bool
      → Option (List ℕ)
      → Ledger
      → (Ledger → Outcome (WorkerRun s))
      → Outcome (WorkerRun s)
  worker_round guid false unlocks received l next = ok (stopped 0 l)
  worker_round guid true false received l next = ok (stopped (free_unread received) l)
  worker_round guid true true none l next = ok (stopped 0 l)
  worker_round guid true true (some buf) l next = do
    quit ← is_quit guid buf
    read_frame quit buf l next

  -- The list of rounds is what the calls of the loop return, as far as they have returned.
  unfoldable pub module_worker : Topic → List Round → Ledger → Outcome (WorkerRun s)
  module_worker guid [] l = ok (record { delivered = []; freed = 0; ledger = l; running = true })
  module_worker guid (r ∷ rounds) l =
      worker_round guid r.locks r.unlocks r.received l (module_worker guid rounds)
