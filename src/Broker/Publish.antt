-- ===== src/Broker/Publish.antt =====
-- core/src/broker.c: Broker_Publish.
use azure_iot_gateway_sdk.Base.{
  ℕ, ◌+◌, ◌-◌, ◌%◌, ◌^◌, Option, some, none, List, [], ◌∷◌, ◌++◌, drop, ◌==◌, if◌then◌else◌,
}
use azure_iot_gateway_sdk.Base.Int.{ℤ, pos, signed32, bits32, lt_int, to_size}
use azure_iot_gateway_sdk.Base.Outcome.{Outcome, ok, ◌>>=◌}
use azure_iot_gateway_sdk.Message.Shared.{SharedLib, Ledger}
use azure_iot_gateway_sdk.Message.Handle.{MessageData, clone, destroy}
use azure_iot_gateway_sdk.Message.Serialize.{memcpy, to_byte_array}
use azure_iot_gateway_sdk.Broker.World.{World}
use azure_iot_gateway_sdk.Broker.State.{
  BrokerResult, broker_ok, broker_error, broker_invalidarg, Broker,
}
use azure_iot_gateway_sdk.Broker.Links.{handle_bytes}

-- The result, the message after the call, what the message library holds, and the world.
pub record Published (s : SharedLib) : Type 0 where
  pub result : BrokerResult
  pub message : Option (MessageData s)
  pub ledger : Ledger
  pub world : World

abbrev pub tick : World → World
tick w = record w { calls = w.calls + 1 }

-- `buf_size`: an `int32_t` and a `size_t` are added, and the sum is made an `int32_t`.
abbrev pub buffer_size : ℤ → ℤ
buffer_size msg_size = signed32 ((bits32 msg_size + 8) % 2 ^ 32)

-- The bytes of a buffer that was given.
abbrev pub buffer_bytes : Option (List ℕ) → List ℕ
buffer_bytes none = []
buffer_bytes (some bytes) = bytes

module _ (s : SharedLib) (nn_allocmsg : ℕ → Option (List ℕ)) where
  -- `Message_Destroy(msg)` and `Unlock`.
  unfoldable pub leave_publish :
      BrokerResult → Option (MessageData s) → Ledger → World → Published s
  leave_publish result message l w =
      let (message', l') = destroy s message l in
      record { result = result; message = message'; ledger = l'; world = tick w }

  -- The frame goes out, or its buffer is freed.
  unfoldable pub send_frame : List ℕ → World → BrokerResult × World
  send_frame frame w =
      if w.oracle w.calls
      then (
        broker_ok,
        record w { calls = w.calls + 1; sent = frame ∷ w.sent; buffers = w.buffers - 1 },
      )
      else (broker_error, record w { calls = w.calls + 1; buffers = w.buffers - 1 })

  unfoldable pub fill_and_send :
      ℕ → Option (MessageData s) → ℤ → List ℕ → Ledger → World → Outcome (Published s)
  fill_and_send source message msg_size bytes l w = do
    bytes' ← memcpy bytes 0 (handle_bytes source)
    (_, rest) ← to_byte_array s message (some (drop 8 bytes')) msg_size
    let (result, w') = send_frame (handle_bytes source ++ buffer_bytes rest) w
    ok (leave_publish result message l w')

  unfoldable pub send_allocated :
      Option (List ℕ) → ℕ → Option (MessageData s) → ℤ → Ledger → World → Outcome (Published s)
  send_allocated none source message msg_size l w = ok (leave_publish broker_error message l w)
  send_allocated (some bytes) source message msg_size l w =
      fill_and_send source message msg_size bytes l (record w { buffers = w.buffers + 1 })

  unfoldable pub allocate_and_send :
      ℕ → Option (MessageData s) → ℤ → Ledger → World → Outcome (Published s)
  allocate_and_send source message msg_size l w =
      send_allocated (nn_allocmsg (to_size (buffer_size msg_size))) source message msg_size l w

  unfoldable pub serialize_and_send :
      ℕ → Option (MessageData s) → Ledger → World → Outcome (Published s)
  serialize_and_send source message l w = do
    (msg_size, _) ← to_byte_array s message none (pos 0)
    if lt_int msg_size (pos 0)
        then ok (leave_publish broker_error message l w)
        else allocate_and_send source message msg_size l w

  unfoldable pub broker_publish :
      Option Broker → ℕ → Option (MessageData s) → Ledger → World → Outcome (Published s)
  broker_publish none source message l w =
      ok (record { result = broker_invalidarg; message = message; ledger = l; world = w })
  broker_publish (some b) source none l w =
      ok (record { result = broker_invalidarg; message = none; ledger = l; world = w })
  broker_publish (some b) source (some m) l w =
      if source == 0
      then ok (record { result = broker_invalidarg; message = some m; ledger = l; world = w })
      else if w.oracle w.calls
      then (let (message, l') = clone s (some m) l in serialize_and_send source message l' (tick w))
      else ok (record { result = broker_error; message = some m; ledger = l; world = tick w })
