-- ===== src/Broker/Frames.antt =====
-- What Broker_Publish (core/src/broker.c) sends.
use azure_iot_gateway_sdk.Base.{
  ℕ, ◌+◌, ◌≤◌, ◌<◌, ◌≡◌, ◌≢◌, ◌⊎◌, refl, ap, inl, inr, false, Option, some, none, List, ◌∷◌, ◌++◌,
  append-nil, length, length-drop, drop, drop-all, ltb, le→not_ltb, ◌==◌, Bool-cases, arith,
}
use azure_iot_gateway_sdk.Base.Int.{pos, int32_max}
use azure_iot_gateway_sdk.Base.Outcome.{ok}
use azure_iot_gateway_sdk.Message.Shared.{SharedLib, Ledger, Property, take_constmap, take_buffer}
use azure_iot_gateway_sdk.Message.Handle.{MessageData, clone, destroy}
use azure_iot_gateway_sdk.Message.Serialize.{memcpy}
use azure_iot_gateway_sdk.Message.Encoding.{encoding_size, encoding}
use azure_iot_gateway_sdk.Message.Writing.{to_byte_array_query, to_byte_array_written}
use azure_iot_gateway_sdk.Message.References.{CanClone}
use azure_iot_gateway_sdk.Broker.World.{World}
use azure_iot_gateway_sdk.Broker.State.{BrokerResult, broker_ok, broker_error, Broker}
use azure_iot_gateway_sdk.Broker.Links.{handle_bytes}
use azure_iot_gateway_sdk.Broker.Publish.{
  Published, tick, buffer_size, leave_publish, send_frame, fill_and_send, send_allocated,
  allocate_and_send, serialize_and_send, broker_publish,
}

-- The handle of the source, and the byte array form of the message.
abbrev pub frame_of : ℕ → List Property → List ℕ → List ℕ
frame_of source props content = handle_bytes source ++ encoding props content

module _ (s : SharedLib) (nn_allocmsg : ℕ → Option (List ℕ)) (m : MessageData s)
    (props : List Property) (content : List ℕ) (l : Ledger) where
  -- The message and what is held while the clone lives.
  abbrev cloned : MessageData s
  cloned = record m { refs = m.refs + 1 }

  abbrev with_clone : Ledger
  with_clone = take_buffer (take_constmap l)

  abbrev done : BrokerResult → World → Published s
  done result w = record { result = result; message = some m; ledger = l; world = tick w }

  leave_publish-done :
      (result : BrokerResult) (w : World)
      → 0 < m.refs
      → leave_publish s nn_allocmsg result (some cloned) with_clone w ≡ done result w
  unfolding leave_publish destroy
  leave_publish-done result w h = ground arith

  -- The result of Broker_Publish: the frame was sent, or it was not.
  abbrev pub SentOrNot : ℕ → World → Published s → Type 0
  SentOrNot source w p =
      (p.message ≡ some m)
      × (p.ledger ≡ l)
      × (p.world.memory ≡ w.memory)
      × (p.world.buffers ≡ w.buffers)
      × (((p.result ≡ broker_ok) × (p.world.sent ≡ frame_of source props content ∷ w.sent))
          ⊎ ((p.result ≡ broker_error) × (p.world.sent ≡ w.sent)))

  module _ (hp : s.constmap_get_internals m.properties ≡ some props)
      (hc : s.constbuffer_get_content m.content ≡ content) (alive : 0 < m.refs)
      (fits : encoding_size props content + 8 ≤ int32_max) where
    fill_and_send-done :
        (source : ℕ) (bytes : List ℕ) (w : World)
        → length bytes ≡ encoding_size props content + 8
        → fill_and_send s nn_allocmsg source
            (some cloned)
            (pos (encoding_size props content))
            bytes
            with_clone
            w
          ≡ ok (
              done
                (send_frame s nn_allocmsg (frame_of source props content) w).0
                (send_frame s nn_allocmsg (frame_of source props content) w).1)
    unfolding fill_and_send memcpy
    fill_and_send-done source bytes w h =
        let n = encoding_size props content in
        let room : length (drop 8 bytes) ≡ n = omega (arith, length-drop 8 bytes) in
        rw (
          le→not_ltb (length bytes) 8 (omega arith),
          to_byte_array_written s cloned props content hp hc (omega arith) (drop 8 bytes) n
              (omega arith) (omega arith),
          drop-all n (drop 8 bytes) (omega arith),
          append-nil,
          leave_publish-done _ _ alive,
        )

    buffer_size_fits :
        buffer_size (pos (encoding_size props content)) ≡ pos (encoding_size props content + 8)
    buffer_size_fits = ground arith

    send_frame-SentOrNot :
        (source : ℕ) (w0 w : World)
        → w.memory ≡ w0.memory
        → w.buffers ≡ w0.buffers + 1
        → w.sent ≡ w0.sent
        → SentOrNot source w0 (
            done
              (send_frame s nn_allocmsg (frame_of source props content) w).0
              (send_frame s nn_allocmsg (frame_of source props content) w).1)
    unfolding send_frame
    send_frame-SentOrNot source w0 w hm hb hs = elim (Bool-cases (w.oracle w.calls)) [
      | inl e ↦ rw e (
        refl,
        refl,
        hm,
        omega arith,
        inl (refl, ap (λ (sent : List (List ℕ)). frame_of source props content ∷ sent) hs),
      )
      | inr e ↦ rw e (refl, refl, hm, omega arith, inr (refl, hs))
    ]

    send_allocated-SentOrNot :
        (o : Option (List ℕ)) (source : ℕ) (w : World)
        → ((bytes : List ℕ) → o ≡ some bytes → length bytes ≡ encoding_size props content + 8)
        → (p : Published s) × (send_allocated s nn_allocmsg o source
              (some cloned)
              (pos (encoding_size props content))
              with_clone
              w
            ≡ ok p)
          × SentOrNot source w p
    unfolding send_allocated
    send_allocated-SentOrNot none source w sized = (
      done broker_error w,
      ap ok (leave_publish-done broker_error w alive),
      (refl, refl, refl, refl, inr (refl, refl)),
    )
    send_allocated-SentOrNot (some bytes) source w sized = (
      _,
      fill_and_send-done source bytes _ (sized bytes refl),
      send_frame-SentOrNot source w _ refl refl refl,
    )

    -- Broker_Publish of a live message that the library can clone, from a handle that is not NULL,
    -- returns, if the byte array form of the message with the handle in front fits an `int32_t` and
    -- nn_allocmsg gives buffers of the size asked for. It leaves the message, what is held and the
    -- memory as they were, and either returns BROKER_OK and has sent one frame, the bytes of the source's
    -- handle and the byte array form of the message, or returns BROKER_ERROR and has sent nothing.
    pub broker_publish-SentOrNot :
        (b : Broker) (source : ℕ) (w : World)
        → CanClone s
        → source ≢ 0
        → ((n : ℕ) (bytes : List ℕ) → nn_allocmsg n ≡ some bytes → length bytes ≡ n)
        → (p : Published s) × (broker_publish s nn_allocmsg (some b) source (some m) l w ≡ ok p)
          × SentOrNot source w p
    unfolding broker_publish serialize_and_send allocate_and_send clone
    broker_publish-SentOrNot b source w lib hs sized =
        let n = encoding_size props content in
        let nonzero : (source == 0) ≡ false = ground arith in
        let nonneg : ltb n 0 ≡ false = ground arith in
        elim (Bool-cases (w.oracle w.calls)) [
          | inr e ↦ (
            record { result = broker_error; message = some m; ledger = l; world = tick w },
            rw (nonzero, e),
            (refl, refl, refl, refl, inr (refl, refl)),
          )
          | inl e ↦
              let (p, run, sent) =
                send_allocated-SentOrNot (nn_allocmsg (n + 8)) source (tick w) (sized (n + 8)) in
              (
                p,
                rw
                    (
                      nonzero,
                      e,
                      lib.constmap_clone_same m.properties,
                      lib.constbuffer_clone_same m.content,
                      to_byte_array_query s cloned props content hp hc (omega arith) none,
                      nonneg,
                      buffer_size_fits,
                    )
                    run,
                sent,
              )
        ]
