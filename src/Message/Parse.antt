-- ===== src/Message/Parse.antt =====
-- core/src/message.c: parse_int32_t, parse_null_terminated_const_char and
-- Message_CreateFromByteArray. A byte array is the list of the bytes that may be read.
use azure_iot_gateway_sdk.Base.{
  ℕ, zero, suc, ◌+◌, ◌-◌, ◌*◌, ◌^◌, Bool, ◌&&◌, Option, some, none, List, [], ◌∷◌, length, take,
  drop, ltb, ◌==◌, if◌then◌else◌,
}
use azure_iot_gateway_sdk.Base.Int.{
  ℤ, pos, negsuc, signed32, int32_max, eq_int, lt_int, add_int32, to_size,
}
use azure_iot_gateway_sdk.Base.Outcome.{Outcome, ok, fail, fault, ◌>>=◌, ◌>>◌, guard, or_fail}
use azure_iot_gateway_sdk.Message.Shared.{SharedLib, Ledger, Text, take_map, free_map}
use azure_iot_gateway_sdk.Message.Handle.{MessageData, create_impl}

unfoldable pub byte_at : List ℕ → ℕ → Outcome ℕ
byte_at [] i = fault
byte_at (b ∷ bs) zero = ok b
byte_at (b ∷ bs) (suc i) = byte_at bs i

-- Four bytes, most significant first. The shifted bytes share no bit, so `|` is a sum.
abbrev pub int32_of_bytes : ℕ → ℕ → ℕ → ℕ → ℤ
int32_of_bytes b0 b1 b2 b3 = signed32 (b0 * 2 ^ 24 + b1 * 2 ^ 16 + b2 * 2 ^ 8 + b3)

-- The number of bytes parsed, and the value.
unfoldable pub parse_int32_t : List ℕ → ℕ → ℕ → Outcome (ℕ × ℤ)
parse_int32_t source size position =
    if lt_int (pos size) (add_int32 (pos position) (pos 4)) then fail else do
      b0 ← byte_at source (position + 0)
      b1 ← byte_at source (position + 1)
      b2 ← byte_at source (position + 2)
      b3 ← byte_at source (position + 3)
      ok (4, int32_of_bytes b0 b1 b2 b3)

-- `memchr(bytes, 0, count)`: the index of the first zero among `count` bytes.
unfoldable pub memchr_nul : List ℕ → ℕ → Outcome (Option ℕ)
memchr_nul bytes zero = ok none
memchr_nul [] (suc count) = fault
memchr_nul (b ∷ bs) (suc count) =
    if b == 0
    then ok (some 0)
    else do found ← memchr_nul bs count; elim found [ none ↦ ok none | some i ↦ ok (some (i + 1)) ]

-- The number of bytes parsed, the terminator among them, and the string at `position`.
-- With `position` past `sourceSize`, the count given to memchr is the cast of a negative number.
unfoldable pub parse_null_terminated_const_char : List ℕ → ℕ → ℕ → Outcome (ℕ × Text)
parse_null_terminated_const_char source size position = if ltb size position then fault else do
  found ← memchr_nul (drop position source) (size - position)
  i ← or_fail found
  ok (i + 1, take i (drop position source))

-- The two marks and the embedded size, which must be the size that was passed.
unfoldable pub parse_header : List ℕ → ℕ → Outcome ℕ
parse_header source size = do
  b0 ← byte_at source 0
  guard (b0 == 0xA1)
  b1 ← byte_at source 1
  guard (b1 == 0x60)
  (parsed, message_size) ← parse_int32_t source size 2
  guard (eq_int message_size (pos size))
  ok (2 + parsed)

unfoldable pub properties_count : ℤ → Outcome ℕ
properties_count (pos n) = if n == int32_max then fail else ok n
properties_count (negsuc n) = fail

-- The number of content bytes, with the position where they start.
unfoldable pub parse_content_size : List ℕ → ℕ → ℕ → Outcome (ℕ × ℕ)
parse_content_size source size position = do
  (parsed, content_size) ← parse_int32_t source size position
  guard (eq_int (add_int32 (pos (position + parsed)) content_size) (pos size))
  ok (position + parsed, to_size content_size)

module _ (s : SharedLib) where
  -- The loop over the properties; `rounds` is `propertiesCount - i`. A `break` leaves `i` short of
  -- `propertiesCount`, for which the routine fails.
  unfoldable pub parse_properties :
      List ℕ → ℕ → (rounds : ℕ) → s.MapHandle → ℕ → Outcome (s.MapHandle × ℕ)
  parse_properties source size zero config_map position = ok (config_map, position)
  parse_properties source size (suc rounds) config_map position = do
    (parsed, key_name) ← parse_null_terminated_const_char source size position
    (parsed', key_value) ← parse_null_terminated_const_char source size (position + parsed)
    config_map' ← or_fail (s.map_add config_map key_name key_value)
    parse_properties source size rounds config_map' (position + parsed + parsed')

  -- All that is read once the map is there: the properties, and where the content is.
  unfoldable pub parse_body : List ℕ → ℕ → s.MapHandle → ℕ → Outcome (s.MapHandle × ℕ × ℕ)
  parse_body source size config_map position = do
    (parsed, count) ← parse_int32_t source size position
    rounds ← properties_count count
    (config_map', position') ← parse_properties source size rounds config_map (position + parsed)
    (start, content_size) ← parse_content_size source size position'
    ok (config_map', start, content_size)

  -- CONSTBUFFER_Create reads the content, once Message_CreateImpl has the memory of a message.
  unfoldable pub content_outside : List ℕ → (start content_size : ℕ) → Bool
  content_outside source start content_size =
      s.malloc_message && ltb (length source) (start + content_size)

  unfoldable pub finish :
      List ℕ → Ledger → Outcome (s.MapHandle × ℕ × ℕ) → Outcome (Option (MessageData s) × Ledger)
  unfolding content_outside
  finish source l (ok (config_map, start, content_size)) =
      if content_outside source start content_size
      then fault
      else (let (result, l') =
            create_impl s
              (record {
                size = content_size;
                source = some (drop start source);
                source_properties = some config_map;
              })
              l in
          ok (result, free_map l'))
  finish source l fail = ok (none, free_map l)
  finish source l fault = fault

  -- `Map_Create`, and what is done with the map until `Map_Destroy`.
  unfoldable pub with_map :
      Option s.MapHandle → List ℕ → ℕ → ℕ → Ledger → Outcome (Option (MessageData s) × Ledger)
  unfolding finish
  with_map none source size position l = ok (none, l)
  with_map (some m) source size position l =
      finish source (take_map l) (parse_body source size m position)

  unfoldable pub after_header :
      List ℕ → ℕ → Ledger → Outcome ℕ → Outcome (Option (MessageData s) × Ledger)
  unfolding with_map
  after_header source size l (ok position) = with_map s.map_create source size position l
  after_header source size l fail = ok (none, l)
  after_header source size l fault = fault

  unfoldable pub create_from_byte_array :
      Option (List ℕ) → ℤ → Ledger → Outcome (Option (MessageData s) × Ledger)
  unfolding after_header
  create_from_byte_array none size l = ok (none, l)
  create_from_byte_array (some source) (negsuc n) l = ok (none, l)
  create_from_byte_array (some source) (pos size) l =
      if ltb size 14 then ok (none, l) else after_header source size l (parse_header source size)
