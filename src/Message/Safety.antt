-- ===== src/Message/Safety.antt =====
-- The parsing routines of core/src/message.c stay inside the byte array, and what they accept is laid
-- out as the byte array form says.
use azure_iot_gateway_sdk.Base.{
  ℕ, zero, suc, ◌+◌, ◌-◌, ◌*◌, ◌^◌, ◌≤◌, ◌<◌, ◌≡◌, ◌≢◌, refl, sym, ap, ◌∙◌, inl, inr, true, Option,
  some, none, List, [], ◌∷◌, ◌++◌, length, length-drop, length-take, All, take, drop, drop-drop,
  ltb, ◌==◌, ==_iff, not_ltb→le, ltb→lt, le→not_ltb, Bool-cases, arith,
}
use native.Mathlib.Numerals.{add-one}
use azure_iot_gateway_sdk.Base.Int.{ℤ, pos, negsuc, int32_max, eq_int, add_int32, to_size}
use azure_iot_gateway_sdk.Base.Outcome.{Safe, >>=-Safe}
use azure_iot_gateway_sdk.Message.Shared.{Text}
use azure_iot_gateway_sdk.Message.Serialize.{be32}
use azure_iot_gateway_sdk.Message.Parse.{
  byte_at, int32_of_bytes, parse_int32_t, memchr_nul, parse_null_terminated_const_char,
}
use azure_iot_gateway_sdk.Message.Reading.{add_int32_fits}

abbrev pub IsByte : ℕ → Type 0
IsByte b = b < 256

-- The byte at `p` is there, and stands in front of what follows from `q`.
abbrev pub ByteAt : List ℕ → ℕ → ℕ → ℕ → Type 0
ByteAt source p q b = IsByte b × (drop p source ≡ b ∷ drop q source)

byte_at-suc :
    (source : List ℕ) (i : ℕ)
    → All IsByte source
    → i < length source
    → Safe (ByteAt source i (suc i)) (byte_at source i)
unfolding byte_at
byte_at-suc [] i hb h = absurd (omega arith)
byte_at-suc (b ∷ source) zero hb h = (hb.0, refl)
byte_at-suc (b ∷ source) (suc i) hb h = byte_at-suc source i hb.1 (omega arith)

pub byte_at-Safe :
    (source : List ℕ) (i p q : ℕ)
    → i ≡ p
    → suc i ≡ q
    → All IsByte source
    → i < length source
    → Safe (ByteAt source p q) (byte_at source i)
byte_at-Safe source i p q ep eq hb h = rw (← ep, ← eq) (byte_at-suc source i hb h)

-- The value of the four bytes at a position.
abbrev pub Int32At : List ℕ → ℕ → ℤ → Type 0
Int32At source p (pos n) = (n < 2 ^ 31) × (drop p source ≡ be32 n ++ drop (p + 4) source)
Int32At source p (negsuc n) = n < 2 ^ 31

be32_bytes :
    (b0 b1 b2 b3 : ℕ)
    → IsByte b0
    → IsByte b1
    → IsByte b2
    → IsByte b3
    → be32 (b0 * 2 ^ 24 + b1 * 2 ^ 16 + b2 * 2 ^ 8 + b3) ≡ b0 ∷ b1 ∷ b2 ∷ b3 ∷ []
be32_bytes b0 b1 b2 b3 h0 h1 h2 h3 = ground arith

int32_of_bytes-Int32At :
    (source : List ℕ) (p b0 b1 b2 b3 : ℕ)
    → IsByte b0
    → IsByte b1
    → IsByte b2
    → IsByte b3
    → drop p source ≡ b0 ∷ b1 ∷ b2 ∷ b3 ∷ drop (p + 4) source
    → Int32At source p (int32_of_bytes b0 b1 b2 b3)
int32_of_bytes-Int32At source p b0 b1 b2 b3 h0 h1 h2 h3 e =
    let w = b0 * 2 ^ 24 + b1 * 2 ^ 16 + b2 * 2 ^ 8 + b3 in
    elim (Bool-cases (ltb w (2 ^ 31))) [
      | inl t ↦ rw t (
        ltb→lt w (2 ^ 31) t,
        e ∙ ap (λ front. front ++ drop (p + 4) source) (sym (be32_bytes b0 b1 b2 b3 h0 h1 h2 h3)),
      )
      | inr t ↦ rw t (omega (arith, not_ltb→le w (2 ^ 31) t))
    ]

abbrev pub FoundAt : List ℕ → ℕ → Option ℕ → Type 0
FoundAt bytes count none = Unit {0}
FoundAt bytes count (some i) =
    (i < count) × (bytes ≡ take i bytes ++ 0 ∷ drop (suc i) bytes) × All (λ b. b ≢ 0) (take i bytes)

memchr_nul-Safe :
    (bytes : List ℕ) (count : ℕ)
    → count ≤ length bytes
    → Safe (FoundAt bytes count) (memchr_nul bytes count)
unfolding memchr_nul
memchr_nul-Safe bytes zero h = tt
memchr_nul-Safe [] (suc count) h = absurd (omega arith)
memchr_nul-Safe (b ∷ bytes) (suc count) h = elim (Bool-cases (b == 0)) [
  | inl e ↦ rw e (omega arith, ap (λ x. x ∷ bytes) ((==_iff b 0).0 e), tt)
  | inr e ↦ rw e (
      >>=-Safe (FoundAt bytes count) _ (memchr_nul bytes count) _
        (memchr_nul-Safe bytes count (omega arith))
        (elim [
          | none ↦ λ _. tt
          | some i ↦
              λ q. rw add-one (omega arith, ap (◌∷◌ b) q.1, ((λ z. cc ((==_iff b 0).1 z)), q.2))
        ]))
]

-- A string with its terminator, and what follows.
abbrev pub TextAt : List ℕ → ℕ → ℕ → ℕ × Text → Type 0
TextAt source size p r =
    (p + r.0 ≤ size)
    × (r.0 ≡ length r.1 + 1)
    × (drop p source ≡ r.1 ++ 0 ∷ drop (p + r.0) source)
    × All (λ b. b ≢ 0) r.1

p_suc : (p i : ℕ) → p + suc i ≡ p + (i + 1)
p_suc p i = omega arith

module _ (source : List ℕ) (size : ℕ) (bytes : All IsByte source) (inside : size ≤ length source)
    (small : size + 4 ≤ int32_max) where
  pub parse_int32_t-Safe :
      (p : ℕ)
      → p ≤ size
      → Safe
          (λ (r : ℕ × ℤ). (r.0 ≡ 4) × (p + 4 ≤ size) × Int32At source p r.1)
          (parse_int32_t source size p)
  unfolding parse_int32_t
  parse_int32_t-Safe p hp = elim (Bool-cases (ltb size (p + 4))) [
    | inl e ↦ rw (add_int32_fits p 4 (omega arith), e) tt
    | inr e ↦
        let room = not_ltb→le size (p + 4) e in
        rw (add_int32_fits p 4 (omega arith), e)
          (>>=-Safe (ByteAt source p (p + 1)) _ _ _
            (byte_at-Safe source (p + 0) p (p + 1) (omega arith) (omega arith) bytes (omega arith))
            λ b0 h0.
              >>=-Safe (ByteAt source (p + 1) (p + 2)) _ _ _
                (byte_at-Safe source (p + 1) (p + 1) (p + 2) refl (omega arith) bytes (omega arith))
                λ b1 h1.
                  >>=-Safe (ByteAt source (p + 2) (p + 3)) _ _ _
                    (byte_at-Safe source (p + 2) (p + 2) (p + 3) refl (omega arith) bytes
                      (omega arith))
                    λ b2 h2.
                      >>=-Safe (ByteAt source (p + 3) (p + 4)) _ _ _
                        (byte_at-Safe source (p + 3) (p + 3) (p + 4) refl (omega arith) bytes
                          (omega arith))
                        λ b3 h3. (
                          refl,
                          omega arith,
                          int32_of_bytes-Int32At source p b0 b1 b2 b3 h0.0 h1.0 h2.0 h3.0
                              (h0.1 ∙ rw (h1.1, h2.1, h3.1)),
                        ))
  ]

  pub parse_null_terminated-Safe :
      (p : ℕ)
      → p ≤ size
      → Safe (TextAt source size p) (parse_null_terminated_const_char source size p)
  unfolding parse_null_terminated_const_char
  parse_null_terminated-Safe p hp = rw (le→not_ltb size p hp) (
      >>=-Safe (FoundAt (drop p source) (size - p)) _ _ _
        (memchr_nul-Safe (drop p source) (size - p) (omega (arith, length-drop p source)))
        (elim [
          | none ↦ λ _. tt
          | some i ↦ λ q. (
            omega arith,
            omega (arith, length-take i (drop p source), length-drop p source),
            q.1
                ∙ ap (λ rest. take i (drop p source) ++ 0 ∷ rest)
                    (drop-drop p (suc i) source ∙ ap (λ k. drop k source) (p_suc p i)),
            q.2,
          )
        ]))

-- An accepted content size is what is left behind it.
pub content_size_exact :
    (source : List ℕ) (size p : ℕ) (n : ℤ)
    → p + 4 ≤ size
    → size ≤ int32_max
    → Int32At source p n
    → eq_int (add_int32 (pos (p + 4)) n) (pos size) ≡ true
    → (p + 4 + to_size n ≡ size) × (drop p source ≡ be32 (to_size n) ++ drop (p + 4) source)
content_size_exact source size p (pos n) hp hm h e = (ground arith, h.1)
content_size_exact source size p (negsuc n) hp hm h e = absurd (ground arith)
