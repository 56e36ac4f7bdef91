-- ===== src/Message/Writing.antt =====
-- What Message_ToByteArray (core/src/message.c) does on each of its branches.
use azure_iot_gateway_sdk.Base.{
  ℕ, ◌%◌, ◌^◌, ◌≤◌, ◌<◌, ◌≡◌, ap, Option, some, none, false, List, ◌++◌, length, drop, lt→ltb,
  le→not_ltb, arith,
}
use azure_iot_gateway_sdk.Base.Int.{ℤ, pos, negsuc, signed32, int32_max, eq_int}
use azure_iot_gateway_sdk.Base.Outcome.{ok}
use azure_iot_gateway_sdk.Message.Shared.{SharedLib, Property}
use azure_iot_gateway_sdk.Message.Handle.{MessageData}
use azure_iot_gateway_sdk.Message.Serialize.{
  byte_array_size, to_byte_array, to_byte_array_message, to_byte_array_with,
}
use azure_iot_gateway_sdk.Message.Encoding.{
  encoding_size, encoding, byte_array_size-encoding, write_message-encoding,
}

signed32_small : (n : ℕ) → n ≤ int32_max → signed32 (n % 2 ^ 32) ≡ pos n
signed32_small n h = ground arith

nonzero : (k : ℕ) → 0 < k → eq_int (pos k) (pos 0) ≡ false
nonzero k h = ground arith

module _ (s : SharedLib) (m : MessageData s) (props : List Property) (content : List ℕ)
    (hp : s.constmap_get_internals m.properties ≡ some props)
    (hc : s.constbuffer_get_content m.content ≡ content)
    (fits : encoding_size props content ≤ int32_max) where
  size_eq : byte_array_size props content ≡ encoding_size props content
  size_eq = byte_array_size-encoding props content (omega arith)

  known :
      (buf : Option (List ℕ)) (size : ℤ)
      → to_byte_array_message s m buf size ≡ to_byte_array_with props content buf size
  unfolding to_byte_array_message
  known buf size =
      rw (hp, to_byte_array_message)
        (ap (λ (bytes : List ℕ). to_byte_array_with props bytes buf size) hc)

  -- For a message whose form fits an `int32_t`: a call with size 0 returns the size that is needed,
  -- and writes nothing.
  pub to_byte_array_query :
      (buf : Option (List ℕ))
      → to_byte_array s (some m) buf (pos 0) ≡ ok (pos (encoding_size props content), buf)
  unfolding to_byte_array to_byte_array_with
  to_byte_array_query none =
      rw (known none (pos 0), size_eq, signed32_small (encoding_size props content) fits)
  to_byte_array_query (some buf) =
      rw (known (some buf) (pos 0), size_eq, signed32_small (encoding_size props content) fits)

  -- For a message whose form fits an `int32_t`: a positive size that is too small is refused with
  -- -1, and nothing is written.
  pub to_byte_array_too_small :
      (buf : List ℕ) (size : ℕ)
      → 0 < size
      → size < encoding_size props content
      → to_byte_array s (some m) (some buf) (pos size) ≡ ok (negsuc 0, some buf)
  unfolding to_byte_array to_byte_array_with
  to_byte_array_too_small buf size hz h = rw (
    known (some buf) (pos size),
    size_eq,
    nonzero size (omega arith),
    lt→ltb size (encoding_size props content) h,
  )

  -- For a message whose form fits an `int32_t`: with a size that is large enough, in a buffer that
  -- is too, the call returns the size of the form, which stands at the buffer's front, and the
  -- buffer behind it is as it was.
  pub to_byte_array_written :
      (buf : List ℕ) (size : ℕ)
      → encoding_size props content ≤ size
      → encoding_size props content ≤ length buf
      → to_byte_array s (some m) (some buf) (pos size)
        ≡ ok (
          pos (encoding_size props content),
          some (encoding props content ++ drop (encoding_size props content) buf),
        )
  unfolding to_byte_array to_byte_array_with
  to_byte_array_written buf size h hb = rw (
    known (some buf) (pos size),
    size_eq,
    nonzero size (omega arith),
    le→not_ltb size (encoding_size props content) h,
    write_message-encoding props content buf hb,
    signed32_small (encoding_size props content) fits,
  )
