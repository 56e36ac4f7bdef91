-- ===== src/Message/Forms.antt =====
-- The parser of core/src/message.c on bytes that are the form of a message.
use azure_iot_gateway_sdk.Base.{
  ℕ, ◌+◌, ◌≤◌, ◌<◌, ◌≡◌, ◌≢◌, refl, sym, ◌∙◌, List, [], ◌∷◌, ◌++◌, append_assoc, append-nil, length,
  length-append, All, drop, drop_behind, some_of_ne, ==_refl, arith, subst,
}
use native.Mathlib.Nat.{add-zero}
use azure_iot_gateway_sdk.Base.Int.{pos, int32_max}
use azure_iot_gateway_sdk.Base.Outcome.{ok}
use azure_iot_gateway_sdk.Message.Shared.{
  SharedLib, Copies, HasMemory, Ledger, Text, Property, take_block, take_buffer, take_constmap,
}
use azure_iot_gateway_sdk.Message.Parse.{
  byte_at, parse_header, properties_count, parse_properties, parse_content_size, parse_body,
}
use azure_iot_gateway_sdk.Message.Serialize.{be32}
use azure_iot_gateway_sdk.Message.Encoding.{
  properties_bytes, encoding_size, tail_bytes, body_bytes, encoding, length_property,
  length_terminated, length-properties_bytes,
}
use azure_iot_gateway_sdk.Message.Reading.{
  add_int32_fits, parse_int32_t-be32, parse_null_terminated-append,
}

-- No key or value holds a zero byte.
abbrev pub AreStrings : List Property → Type 0
AreStrings = All (λ (p : Property). All (λ b. b ≢ 0) p.0 × All (λ b. b ≢ 0) p.1)

-- Each key is new among those held and those before it.
abbrev pub KeysAreNew : List Property → List Property → Type 0
KeysAreNew held [] = Unit {0}
KeysAreNew held ((k, v) ∷ props) =
    All (λ (p : Property). p.0 ≢ k) held × KeysAreNew (held ++ (k, v) ∷ []) props

pub property_layout :
    (k v : Text) (pb rest : List ℕ)
    → ((k ++ 0 ∷ []) ++ ((v ++ 0 ∷ []) ++ pb)) ++ rest ≡ k ++ 0 ∷ (v ++ 0 ∷ (pb ++ rest))
property_layout k v pb rest = simp append_assoc

pub properties_count-lt : (n : ℕ) → n < int32_max → properties_count (pos n) ≡ ok n
unfolding properties_count
properties_count-lt n h = ground arith

parse_content_size-bytes :
    (source rest content : List ℕ) (size position : ℕ)
    → position + 4 + length content ≡ size
    → size ≤ int32_max
    → drop position source ≡ be32 (length content) ++ rest
    → parse_content_size source size position ≡ ok (position + 4, length content)
unfolding parse_content_size
parse_content_size-bytes source rest content size position hp hs e = rw (
  parse_int32_t-be32 source rest size position (length content) (omega arith) (omega arith) hs e,
  add_int32_fits (position + 4) (length content) (omega arith),
  hp,
  ==_refl size,
)

module _ (s : SharedLib) (c : Copies s) (memory : HasMemory s c) (source : List ℕ) (size : ℕ) where
  parse_properties-bytes :
      (props : List Property) (rest : List ℕ) (m : s.MapHandle) (position : ℕ)
      → AreStrings props
      → KeysAreNew (c.entries m) props
      → position + length (properties_bytes props) ≤ size
      → drop position source ≡ properties_bytes props ++ rest
      → (m' : s.MapHandle) × (parse_properties s source size (length props) m position
          ≡ ok (m', position + length (properties_bytes props)))
        × (c.entries m' ≡ c.entries m ++ props)
  unfolding parse_properties
  parse_properties-bytes [] rest m position ht hk hp e = (m, rw (add-zero), rw append-nil)
  parse_properties-bytes ((k, v) ∷ props) rest m position ht hk hp e =
      let pb = properties_bytes props in
      let kn = length k + 1 in
      let vn = length v + 1 in
      let e1 : drop position source ≡ k ++ 0 ∷ (v ++ 0 ∷ (pb ++ rest)) =
        e ∙ property_layout k v pb rest in
      let e2 : drop (position + kn) source ≡ v ++ 0 ∷ (pb ++ rest) =
        drop_behind position kn source (k ++ 0 ∷ []) _ (length_terminated k)
          (e1 ∙ sym (append_assoc k (0 ∷ []) _)) in
      let e3 : drop (position + kn + vn) source ≡ pb ++ rest =
        drop_behind (position + kn) vn source (v ++ 0 ∷ []) _ (length_terminated v)
          (e2 ∙ sym (append_assoc v (0 ∷ []) _)) in
      let size_eq = length_property k v pb in
      let (m1, added) = some_of_ne (s.map_add m k v) (memory.map_add-ne-none m k v hk.0) in
      let held : c.entries m1 ≡ c.entries m ++ (k, v) ∷ [] = c.entries-map_add m m1 k v added in
      let (m2, run, all) =
        parse_properties-bytes props rest m1 (position + kn + vn) ht.1
          (subst (λ h. KeysAreNew h props) (sym held) hk.1) (omega (arith, size_eq)) e3 in
      let sum : position + kn + vn + length pb
          ≡ position + length (properties_bytes ((k, v) ∷ props)) =
        omega (arith, size_eq) in
      (
        m2,
        rw (
          parse_null_terminated-append source k _ size position ht.0.0 (omega (arith, size_eq)) e1,
          parse_null_terminated-append source v _ size (position + kn) ht.0.1
              (omega (arith, size_eq)) e2,
          added,
          run,
          sum,
        ),
        all ∙ rw held (append_assoc (c.entries m) ((k, v) ∷ []) props),
      )

  pub parse_body-bytes :
      (props : List Property) (content rest : List ℕ) (m : s.MapHandle) (position : ℕ)
      → AreStrings props
      → KeysAreNew (c.entries m) props
      → position + length (body_bytes props content) ≡ size
      → size ≤ int32_max
      → drop position source ≡ body_bytes props content ++ rest
      → (m' : s.MapHandle) × (start : ℕ) × (parse_body s source size m position
          ≡ ok (m', start, length content))
        × (c.entries m' ≡ c.entries m ++ props)
        × (drop start source ≡ content ++ rest)
        × (start + length content ≡ size)
  unfolding parse_body
  parse_body-bytes props content rest m position ht hk hp hs e =
      let pb = properties_bytes props in
      let size_eq = length-append pb (tail_bytes content) in
      let count_le = length-properties_bytes props in
      let e0 : drop position source
          ≡ be32 (length props) ++ (pb ++ (be32 (length content) ++ (content ++ rest))) =
        e ∙ simp append_assoc in
      let e1 = drop_behind position 4 source (be32 (length props)) _ refl e0 in
      let (m', run, all) =
        parse_properties-bytes props _ m (position + 4) ht hk (omega (arith, size_eq)) e1 in
      let e2 = drop_behind (position + 4) (length pb) source pb _ refl e1 in
      let at = position + 4 + length pb in
      (
        m',
        at + 4,
        rw (
          parse_int32_t-be32 source _ size position (length props)
              (omega (arith, size_eq, count_le)) (omega (arith, size_eq)) hs e0,
          properties_count-lt (length props) (omega (arith, size_eq, count_le)),
          run,
          parse_content_size-bytes source _ content size at (omega (arith, size_eq)) hs e2,
        ),
        all,
        drop_behind at 4 source (be32 (length content)) _ refl e2,
        omega (arith, size_eq, hp),
      )

-- What a successful Message_CreateFromByteArray holds: one memory block, one constmap, one buffer.
abbrev pub with_message : Ledger → Ledger
with_message l = take_constmap (take_buffer (take_block l))

pub parse_header-encoding :
    (props : List Property) (content rest : List ℕ)
    → encoding_size props content ≤ int32_max
    → parse_header (encoding props content ++ rest) (encoding_size props content) ≡ ok 6
unfolding parse_header encoding byte_at
parse_header-encoding props content rest hs = rw (
  parse_int32_t-be32 (encoding props content ++ rest) (body_bytes props content ++ rest)
      (encoding_size props content) 2 (encoding_size props content) (omega arith) (omega arith) hs
      refl,
  ==_refl (encoding_size props content),
)
