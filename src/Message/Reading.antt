-- ===== src/Message/Reading.antt =====
-- What the parsing routines of core/src/message.c read from bytes that are laid out as the encoding.
use azure_iot_gateway_sdk.Base.{
  ℕ, zero, suc, ◌+◌, ◌-◌, ◌/◌, ◌%◌, ◌^◌, ◌≤◌, ◌<◌, ◌≡◌, ◌≢◌, refl, some, List, [], ◌∷◌, ◌++◌,
  length, All, drop, take-append_left, le→not_ltb, arith,
}
use azure_iot_gateway_sdk.Base.Int.{pos, add_int32, int32_max}
use azure_iot_gateway_sdk.Base.Outcome.{ok}
use azure_iot_gateway_sdk.Message.Serialize.{be32}
use azure_iot_gateway_sdk.Message.Parse.{
  byte_at, int32_of_bytes, parse_int32_t, memchr_nul, parse_null_terminated_const_char,
}

pub byte_at-drop : (p i : ℕ) (source : List ℕ) → byte_at source (p + i) ≡ byte_at (drop p source) i
unfolding byte_at
byte_at-drop zero i source = let e : 0 + i ≡ i = omega arith in rw e
byte_at-drop (suc p) i [] = refl
byte_at-drop (suc p) i (b ∷ source) =
    let e : suc p + i ≡ suc (p + i) = omega arith in rw e (byte_at-drop p i source)

be32_value :
    (n : ℕ)
    → n < 2 ^ 31
    → int32_of_bytes (n / 2 ^ 24 % 256) (n / 2 ^ 16 % 256) (n / 2 ^ 8 % 256) (n % 256) ≡ pos n
be32_value n h = ground arith

pub add_int32_fits : (a b : ℕ) → a + b ≤ int32_max → add_int32 (pos a) (pos b) ≡ pos (a + b)
add_int32_fits a b h = ground arith

pub parse_int32_t-be32 :
    (source rest : List ℕ) (size position n : ℕ)
    → n < 2 ^ 31
    → position + 4 ≤ size
    → size ≤ int32_max
    → drop position source ≡ be32 n ++ rest
    → parse_int32_t source size position ≡ ok (4, pos n)
unfolding parse_int32_t byte_at
parse_int32_t-be32 source rest size position n hn hp hs e = rw (
  add_int32_fits position 4 (omega arith),
  le→not_ltb size (position + 4) (omega arith),
  byte_at-drop position 0 source,
  byte_at-drop position 1 source,
  byte_at-drop position 2 source,
  byte_at-drop position 3 source,
  e,
  be32_value n hn,
)

memchr_nul-append :
    (text rest : List ℕ) (count : ℕ)
    → All (λ b. b ≢ 0) text
    → length text < count
    → memchr_nul (text ++ 0 ∷ rest) count ≡ ok (some (length text))
unfolding memchr_nul
memchr_nul-append text rest zero h lt = absurd (omega arith)
memchr_nul-append [] rest (suc count) h lt = refl
memchr_nul-append (b ∷ text) rest (suc count) h lt =
    ground (arith, memchr_nul-append text rest count)

pub parse_null_terminated-append :
    (source text rest : List ℕ) (size position : ℕ)
    → All (λ b. b ≢ 0) text
    → position + length text < size
    → drop position source ≡ text ++ 0 ∷ rest
    → parse_null_terminated_const_char source size position ≡ ok (length text + 1, text)
unfolding parse_null_terminated_const_char
parse_null_terminated-append source text rest size position h lt e = rw (
  le→not_ltb size position (omega arith),
  e,
  memchr_nul-append text rest (size - position) h (omega arith),
  take-append_left (length text) text (0 ∷ rest) refl,
)
