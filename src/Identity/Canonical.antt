-- ===== src/Identity/Canonical.antt =====
-- IdentityMapConfig_IsCanonicalMAC (modules/identitymap/src/identitymap.c) against the format that it names.
use azure_iot_gateway_sdk.Base.{
  ℕ, zero, suc, ◌+◌, ◌*◌, ◌≤◌, ◌≡◌, ◌↔◌, ◌⊎◌, refl, inl, inr, Bool, true, false, List, [], ◌∷◌,
  length, map, All, ◌==◌, ==_iff, Bool-cases, arith, if◌then◌else◌,
}
use azure_iot_gateway_sdk.Message.Shared.{Text}
use azure_iot_gateway_sdk.Identity.Config.{
  isxdigit, char_at, digits_at, colons_at, fixed_size, digits, colons, is_canonical_mac,
}

-- 0-9, a-f or A-F.
abbrev pub IsHexDigit : ℕ → Type 0
IsHexDigit c = ((b'0' ≤ c) × (c ≤ b'9')) ⊎ (((b'a' ≤ c) × (c ≤ b'f')) ⊎ ((b'A' ≤ c) × (c ≤ b'F')))

-- A number of two hexadecimal digits, and `n` more of them behind colons.
abbrev pub IsPairs : ℕ → Text → Type 0
IsPairs zero (a ∷ b ∷ []) = IsHexDigit a × IsHexDigit b
IsPairs (suc n) (a ∷ b ∷ c ∷ rest) = IsHexDigit a × IsHexDigit b × (c ≡ b':') × IsPairs n rest
IsPairs n mac = ⊥

isxdigit_iff : (c : ℕ) → (isxdigit c ≡ true) ↔ IsHexDigit c
unfolding isxdigit
isxdigit_iff c = ground arith

digits_at_iff :
    (places : List ℕ) (mac : Text)
    → (digits_at places mac ≡ true) ↔ All (λ i. isxdigit (char_at mac i) ≡ true) places
unfolding digits_at
digits_at_iff [] mac = (λ h. tt, λ h. refl)
digits_at_iff (i ∷ places) mac = elim (Bool-cases (isxdigit (char_at mac i))) [
  | inl hit ↦ let rest = digits_at_iff places mac in rw hit (λ h. (refl, rest.0 h), λ h. rest.1 h.1)
  | inr miss ↦ rw miss (λ h. absurd cc, λ h. absurd cc)
]

colons_at_iff :
    (places : List ℕ) (mac : Text)
    → (colons_at places mac ≡ true) ↔ All (λ i. char_at mac i ≡ b':') places
unfolding colons_at
colons_at_iff [] mac = (λ h. tt, λ h. refl)
colons_at_iff (i ∷ places) mac = elim (Bool-cases (char_at mac i == b':')) [
  | inl hit ↦
      let rest = colons_at_iff places mac in
      rw hit (λ h. ((==_iff (char_at mac i) b':').0 hit, rest.0 h), λ h. rest.1 h.1)
  | inr miss ↦
      rw miss (λ h. absurd cc, λ h. absurd (cc (miss, (==_iff (char_at mac i) b':').1 h.0)))
]

-- The places of the digits and of the colons in a number with `n` more behind it.
abbrev beyond : ℕ → ℕ
beyond i = suc (suc (suc i))

abbrev digit_places : ℕ → List ℕ
digit_places zero = 0 ∷ 1 ∷ []
digit_places (suc n) = 0 ∷ 1 ∷ map beyond (digit_places n)

abbrev colon_places : ℕ → List ℕ
colon_places zero = []
colon_places (suc n) = 2 ∷ map beyond (colon_places n)

All-map_iff : (P : ℕ → Type 0) (f : ℕ → ℕ) (xs : List ℕ) → All P (map f xs) ↔ All (λ i. P (f i)) xs
All-map_iff P f [] = (λ h. h, λ h. h)
All-map_iff P f (x ∷ xs) =
    let rest = All-map_iff P f xs in (λ h. (h.0, rest.0 h.1), λ h. (h.0, rest.1 h.1))

abbrev Fits : ℕ → Text → Type 0
Fits n mac =
    (length mac ≡ 3 * n + 2)
    × All (λ i. isxdigit (char_at mac i) ≡ true) (digit_places n)
    × All (λ i. char_at mac i ≡ b':') (colon_places n)

Fits-IsPairs : (n : ℕ) (mac : Text) → Fits n mac → IsPairs n mac
Fits-IsPairs zero (a ∷ b ∷ []) (long, digits_fit, colons_fit) =
    ((isxdigit_iff a).0 digits_fit.0, (isxdigit_iff b).0 digits_fit.1.0)
Fits-IsPairs (suc n) (a ∷ b ∷ c ∷ rest) (long, digits_fit, colons_fit) = (
  (isxdigit_iff a).0 digits_fit.0,
  (isxdigit_iff b).0 digits_fit.1.0,
  colons_fit.0,
  Fits-IsPairs n rest (
    omega arith,
    (All-map_iff (λ i. isxdigit (char_at (a ∷ b ∷ c ∷ rest) i) ≡ true) beyond (digit_places n)).0
        digits_fit.1.1,
    (All-map_iff (λ i. char_at (a ∷ b ∷ c ∷ rest) i ≡ b':') beyond (colon_places n)).0 colons_fit.1,
  ),
)
Fits-IsPairs zero [] (long, h, k) = absurd (omega arith)
Fits-IsPairs zero (a ∷ []) (long, h, k) = absurd (omega arith)
Fits-IsPairs zero (a ∷ b ∷ c ∷ rest) (long, h, k) = absurd (omega arith)
Fits-IsPairs (suc n) [] (long, h, k) = absurd (omega arith)
Fits-IsPairs (suc n) (a ∷ []) (long, h, k) = absurd (omega arith)
Fits-IsPairs (suc n) (a ∷ b ∷ []) (long, h, k) = absurd (omega arith)

IsPairs-Fits : (n : ℕ) (mac : Text) → IsPairs n mac → Fits n mac
IsPairs-Fits zero (a ∷ b ∷ []) (ha, hb) =
    (omega arith, ((isxdigit_iff a).1 ha, ((isxdigit_iff b).1 hb, tt)), tt)
IsPairs-Fits (suc n) (a ∷ b ∷ c ∷ rest) (ha, hb, hc, pairs) =
    let (long, digits_fit, colons_fit) = IsPairs-Fits n rest pairs in
    (
      omega arith,
      (
        (isxdigit_iff a).1 ha,
        (
          (isxdigit_iff b).1 hb,
          (All-map_iff (λ i. isxdigit (char_at (a ∷ b ∷ c ∷ rest) i) ≡ true) beyond
                (digit_places n)).1
              digits_fit,
        ),
      ),
      (
        hc,
        (All-map_iff (λ i. char_at (a ∷ b ∷ c ∷ rest) i ≡ b':') beyond (colon_places n)).1
            colons_fit,
      ),
    )
IsPairs-Fits zero [] h = absurd h
IsPairs-Fits zero (a ∷ []) h = absurd h
IsPairs-Fits zero (a ∷ b ∷ c ∷ rest) h = absurd h
IsPairs-Fits (suc n) [] h = absurd h
IsPairs-Fits (suc n) (a ∷ []) h = absurd h
IsPairs-Fits (suc n) (a ∷ b ∷ []) h = absurd h

all_three :
    (a b c : Bool)
    → ((if a then (if b then c else false) else false) ≡ true)
      ↔ ((a ≡ true) × (b ≡ true) × (c ≡ true))
all_three true true c = (λ h. (refl, refl, h), λ h. h.2)
all_three true false c = (λ h. absurd cc, λ h. absurd cc)
all_three false b c = (λ h. absurd cc, λ h. absurd cc)

-- IdentityMapConfig_IsCanonicalMAC accepts exactly the strings that are six numbers of two hexadecimal digits,
-- of either case, with colons between them and nothing before or behind.
pub is_canonical_mac_iff : (mac : Text) → (is_canonical_mac mac ≡ true) ↔ IsPairs 5 mac
unfolding is_canonical_mac
is_canonical_mac_iff mac =
    let tests =
      all_three (length mac == fixed_size) (digits_at digits mac) (colons_at colons mac) in
    (
      λ h.
          let (long, digits_fit, colons_fit) = tests.0 h in
          Fits-IsPairs 5 mac (
            (==_iff (length mac) fixed_size).0 long,
            (digits_at_iff digits mac).0 digits_fit,
            (colons_at_iff colons mac).0 colons_fit,
          ),
      λ pairs.
          let (long, digits_fit, colons_fit) = IsPairs-Fits 5 mac pairs in
          tests.1 (
            (==_iff (length mac) fixed_size).1 long,
            (digits_at_iff digits mac).1 digits_fit,
            (colons_at_iff colons mac).1 colons_fit,
          ),
    )
