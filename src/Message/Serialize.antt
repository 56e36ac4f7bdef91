-- ===== src/Message/Serialize.antt =====
-- core/src/message.c: Message_ToByteArray. The caller's buffer is the list of the bytes that may
-- be written.
use azure_iot_gateway_sdk.Base.{
  ℕ, ◌+◌, ◌/◌, ◌%◌, ◌^◌, Option, some, none, List, [], ◌∷◌, ◌++◌, length, take, drop, ltb,
  if◌then◌else◌,
}
use azure_iot_gateway_sdk.Base.Int.{ℤ, pos, negsuc, signed32, eq_int, to_size}
use azure_iot_gateway_sdk.Base.Outcome.{Outcome, ok, fault, ◌>>=◌}
use azure_iot_gateway_sdk.Message.Shared.{SharedLib, Property}
use azure_iot_gateway_sdk.Message.Handle.{MessageData}

-- The sizes are 64-bit.
unfoldable pub add_sizes : ℕ → List Property → ℕ
add_sizes total [] = total
add_sizes total ((key, value) ∷ props) =
    add_sizes ((total + ((length key + 1) + (length value + 1))) % 2 ^ 64) props

unfoldable pub byte_array_size : List Property → List ℕ → ℕ
unfolding add_sizes
byte_array_size props content = (add_sizes 14 props + length content) % 2 ^ 64

-- Four bytes in MSB order, as `unsigned char` keeps them.
abbrev pub be32 : ℕ → List ℕ
be32 n = (n / 2 ^ 24 % 256) ∷ (n / 2 ^ 16 % 256) ∷ (n / 2 ^ 8 % 256) ∷ (n % 256) ∷ []

-- A write that does not fit the buffer is undefined.
unfoldable pub memcpy : List ℕ → ℕ → List ℕ → Outcome (List ℕ)
memcpy buf position bytes =
    if ltb (length buf) (position + length bytes)
    then fault
    else ok (take position buf ++ (bytes ++ drop (position + length bytes) buf))

unfoldable pub write_properties : List Property → ℕ → List ℕ → Outcome (ℕ × List ℕ)
write_properties [] position buf = ok (position, buf)
write_properties ((key, value) ∷ props) position buf = do
  buf' ← memcpy buf position (key ++ 0 ∷ [])
  buf'' ← memcpy buf' (position + (length key + 1)) (value ++ 0 ∷ [])
  write_properties props (position + (length key + 1) + (length value + 1)) buf''

unfoldable pub write_message : List Property → List ℕ → ℕ → List ℕ → Outcome (List ℕ)
write_message props content total buf = do
  buf1 ← memcpy buf 0 (0xA1 ∷ 0x60 ∷ [])
  buf2 ← memcpy buf1 2 (be32 total)
  buf3 ← memcpy buf2 6 (be32 (length props))
  (position, buf4) ← write_properties props 10 buf3
  buf5 ← memcpy buf4 position (be32 (length content))
  memcpy buf5 (position + 4) content

-- Past the checks on the arguments and the properties.
unfoldable pub to_byte_array_with :
    List Property → List ℕ → Option (List ℕ) → ℤ → Outcome (ℤ × Option (List ℕ))
to_byte_array_with props content buf size =
    let total = byte_array_size props content in
    if eq_int size (pos 0)
    then ok (signed32 (total % 2 ^ 32), buf)
    else if ltb (to_size size) total
    then ok (negsuc 0, buf)
    else elim buf [
      | none ↦ fault
      | some bytes ↦ do
        bytes' ← write_message props content total bytes
        ok (signed32 (total % 2 ^ 32), some bytes')
    ]

module _ (s : SharedLib) where
  unfoldable pub to_byte_array_message :
      MessageData s → Option (List ℕ) → ℤ → Outcome (ℤ × Option (List ℕ))
  to_byte_array_message m buf size = elim (s.constmap_get_internals m.properties) [
    | none ↦ ok (negsuc 0, buf)
    | some props ↦ to_byte_array_with props (s.constbuffer_get_content m.content) buf size
  ]

  -- The result, and the buffer after the call.
  unfoldable pub to_byte_array :
      Option (MessageData s) → Option (List ℕ) → ℤ → Outcome (ℤ × Option (List ℕ))
  unfolding to_byte_array_message
  to_byte_array none buf size = ok (negsuc 0, buf)
  to_byte_array (some m) none size =
      if eq_int size (pos 0) then to_byte_array_message m none size else ok (negsuc 0, none)
  to_byte_array (some m) (some bytes) size = to_byte_array_message m (some bytes) size
