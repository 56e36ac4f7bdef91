-- ===== src/Broker/Delivery.antt =====
-- From Broker_Publish to Module_Receive (core/src/broker.c): what the worker of a module makes of the
-- frames that arrive.
use azure_iot_gateway_sdk.Base.{
  ℕ, zero, suc, ◌+◌, ◌-◌, ◌^◌, ◌≤◌, ◌<◌, ◌≡◌, refl, subst, inl, inr, Bool, true, false, Option,
  some, none, List, [], ◌∷◌, ◌++◌, append-nil, length, length-drop, All, drop, ltb, ltb→lt,
  not_ltb→le, Bool-cases, arith,
}
use azure_iot_gateway_sdk.Base.Int.{pos, negsuc, int32_max}
use azure_iot_gateway_sdk.Base.Outcome.{Outcome, ok, Safe, >>=-Safe}
use azure_iot_gateway_sdk.Message.Shared.{SharedLib, Copies, HasMemory, Ledger, Property}
use azure_iot_gateway_sdk.Message.Handle.{MessageData, destroy}
use azure_iot_gateway_sdk.Message.Parse.{create_from_byte_array}
use azure_iot_gateway_sdk.Message.Encoding.{encoding_size, encoding, length-encoding}
use azure_iot_gateway_sdk.Message.Safety.{IsByte}
use azure_iot_gateway_sdk.Message.RoundTrip.{create_from_encoding}
use azure_iot_gateway_sdk.Message.Forms.{with_message, AreStrings, KeysAreNew}
use azure_iot_gateway_sdk.Message.Accept.{Accounted, create_from_byte_array-Safe}
use azure_iot_gateway_sdk.Broker.State.{Topic}
use azure_iot_gateway_sdk.Broker.Worker.{
  Round, WorkerRun, payload_size, deliver, read_frame, worker_round, module_worker,
}
use azure_iot_gateway_sdk.Broker.Frames.{frame_of}
use azure_iot_gateway_sdk.Broker.Quit.{IsGuid, is_quit-guid, not-is_quit, is_quit-Safe}

-- `nn_recv` returns the length as an `int`.
abbrev pub IsFrame : Option (List ℕ) → Type 0
IsFrame none = Unit {0}
IsFrame (some buf) = All IsByte buf × (length buf ≤ int32_max)

drop-IsByte : (n : ℕ) (xs : List ℕ) → All IsByte xs → All IsByte (drop n xs)
drop-IsByte zero xs h = h
drop-IsByte (suc n) [] h = tt
drop-IsByte (suc n) (x ∷ xs) h = drop-IsByte n xs h.1

payload_size_short : (n : ℕ) → n < 8 → payload_size n ≡ negsuc (7 - n)
payload_size_short n h = ground arith

pub payload_size_long : (n : ℕ) → 8 ≤ n → n ≤ int32_max → payload_size n ≡ pos (n - 8)
payload_size_long n h k = ground arith

-- A round in which the locks work and a frame arrives.
abbrev pub arrives : List ℕ → Round
arrives frame = record { locks = true; received = some frame; unlocks = true }

module _ (s : SharedLib) (guid : Topic) where
  frame-Safe :
      (buf : List ℕ) (l : Ledger)
      → IsFrame (some buf)
      → Safe
          (Accounted s l)
          (create_from_byte_array s (some (drop 8 buf)) (payload_size (length buf)) l)
  frame-Safe buf l (bytes, small) = elim (Bool-cases (ltb (length buf) 8)) [
    | inl e ↦
        rw (payload_size_short (length buf) (ltb→lt _ _ e)) (unfold create_from_byte_array in refl)
    | inr e ↦
        let long = not_ltb→le (length buf) 8 e in
        rw (payload_size_long (length buf) long small) (
          create_from_byte_array-Safe s (drop 8 buf) (length buf - 8) l (drop-IsByte 8 buf bytes)
            (omega (arith, length-drop 8 buf)) (omega arith))
  ]

  -- Message_Destroy of a message that was just made.
  destroy_made :
      (l : Ledger) (m : MessageData s) (l' : Ledger)
      → Accounted s l (some m, l')
      → (destroy s (some m) l').1 ≡ l
  unfolding destroy
  destroy_made l m l' acc = ground arith

  abbrev pub Balanced : Ledger → WorkerRun s → Type 0
  Balanced l r = r.ledger ≡ l

  deliver-Balanced :
      (l : Ledger) (made : Option (MessageData s) × Ledger) (next : Ledger → Outcome (WorkerRun s))
      → Accounted s l made
      → Safe (Balanced l) (next l)
      → Safe (Balanced l) (deliver s made next)
  unfolding deliver
  deliver-Balanced l (none, l') next acc k = rw acc (>>=-Safe (Balanced l) _ (next l) _ k λ r h. h)
  deliver-Balanced l (some m, l') next acc k =
      rw (destroy_made l m l' acc) (>>=-Safe (Balanced l) _ (next l) _ k λ r h. h)

  read_frame-Balanced :
      (quit : Bool) (buf : List ℕ) (l : Ledger) (next : Ledger → Outcome (WorkerRun s))
      → IsFrame (some buf)
      → Safe (Balanced l) (next l)
      → Safe (Balanced l) (read_frame s quit buf l next)
  unfolding read_frame
  read_frame-Balanced true buf l next h k = refl
  read_frame-Balanced false buf l next h k =
      >>=-Safe (Accounted s l) _ _ _ (frame-Safe buf l h)
        λ made acc. deliver-Balanced l made next acc k

  round-Balanced :
      (locks unlocks : Bool) (received : Option (List ℕ)) (l : Ledger)
      (next : Ledger → Outcome (WorkerRun s))
      → IsFrame received
      → Safe (Balanced l) (next l)
      → Safe (Balanced l) (worker_round s guid locks unlocks received l next)
  unfolding worker_round
  round-Balanced false unlocks received l next h k = refl
  round-Balanced true false received l next h k = refl
  round-Balanced true true none l next h k = refl
  round-Balanced true true (some buf) l next h k =
      >>=-Safe (λ quit. Unit {0}) _ _ _ (is_quit-Safe guid buf)
        λ quit read. read_frame-Balanced quit buf l next h k

  -- Whatever frames of bytes arrive, of lengths that are an `int`, and whichever locks fail, the
  -- worker's run reads outside of no frame, and when it has stopped or waits, it holds no message
  -- and nothing of one.
  pub module_worker-Balanced :
      (rounds : List Round) (l : Ledger)
      → All (λ (r : Round). IsFrame r.received) rounds
      → Safe (Balanced l) (module_worker s guid rounds l)
  unfolding module_worker
  module_worker-Balanced [] l h = refl
  module_worker-Balanced (r ∷ rounds) l (h, hs) =
      round-Balanced r.locks r.unlocks r.received l _ h (module_worker-Balanced rounds l hs)

  -- The quit signal, 36 characters and a zero, ends the loop: nothing is delivered, and the
  -- signal's buffer is freed.
  pub module_worker_quits :
      (rounds : List Round) (l : Ledger)
      → IsGuid guid
      → module_worker s guid (arrives (guid ++ 0 ∷ []) ∷ rounds) l
        ≡ ok (record { delivered = []; freed = 1; ledger = l; running = false })
  unfolding module_worker worker_round read_frame
  module_worker_quits rounds l g = rw (is_quit-guid guid g)

  module _ (c : Copies s) (memory : HasMemory s c) where
    made_of_frame :
        (source : ℕ) (props : List Property) (content : List ℕ) (l : Ledger)
        → AreStrings props
        → KeysAreNew [] props
        → encoding_size props content + 8 ≤ int32_max
        → (m : MessageData s) × (create_from_byte_array s
              (some (drop 8 (frame_of source props content)))
              (payload_size (length (frame_of source props content)))
              l
            ≡ ok (some m, with_message l))
          × (s.constmap_get_internals m.properties ≡ some props)
          × (s.constbuffer_get_content m.content ≡ content)
          × (m.refs ≡ 1)
    made_of_frame source props content l ht hk hs =
        let n = length (frame_of source props content) in
        let n_eq : n ≡ encoding_size props content + 8 =
          omega (arith, length-encoding props content) in
        let back : n - 8 ≡ encoding_size props content = omega arith in
        rw (payload_size_long n (omega arith) (omega arith), back)
          (subst
            (λ (bytes : List ℕ).
              (m : MessageData s) × (create_from_byte_array s (some bytes)
                  (pos (encoding_size props content)) l
                ≡ ok (some m, with_message l))
              × (s.constmap_get_internals m.properties ≡ some props)
              × (s.constbuffer_get_content m.content ≡ content)
              × (m.refs ≡ 1))
            (append-nil (encoding props content))
            (create_from_encoding s c memory props content [] l ht hk (omega arith)))

    -- Where the library has memory and copies what it is given, the quit signal is 36 characters
    -- and the source's handle is below 2 ^ 56: the frame that Broker_Publish sends for a message,
    -- whose properties are C strings with distinct keys and whose form with the handle fits an
    -- `int32_t`, is delivered by the worker that receives it before a run that has a result.
    -- Module_Receive is called with a message of the same properties and content, before any later
    -- one; the frame's buffer is freed, what the library holds for the rest of the run is as
    -- without the frame, and the loop goes on.
    pub module_worker_delivers :
        (source : ℕ) (props : List Property) (content : List ℕ) (rounds : List Round) (l : Ledger)
        (rest : WorkerRun s)
        → IsGuid guid
        → source < 2 ^ 56
        → AreStrings props
        → KeysAreNew [] props
        → encoding_size props content + 8 ≤ int32_max
        → module_worker s guid rounds l ≡ ok rest
        → (m : MessageData s) × (module_worker s guid
              (arrives (frame_of source props content) ∷ rounds)
              l
            ≡ ok (record rest { delivered = m ∷ rest.delivered; freed = rest.freed + 1 }))
          × (s.constmap_get_internals m.properties ≡ some props)
          × (s.constbuffer_get_content m.content ≡ content)
    unfolding module_worker worker_round read_frame deliver
    module_worker_delivers source props content rounds l rest g hs ht hk fits run =
        let (m, made, internals, bytes, one) = made_of_frame source props content l ht hk fits in
        (
          m,
          rw (
            not-is_quit guid source (encoding props content) g hs,
            made,
            destroy_made l m (with_message l) (refl, one),
            run,
          ),
          internals,
          bytes,
        )
