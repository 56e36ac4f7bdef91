-- ===== src/Broker/Quit.antt =====
-- The quit signal of a module's worker (core/src/broker.c), and the frames that are none.
use azure_iot_gateway_sdk.Base.{
  ℕ, zero, suc, ◌/◌, ◌%◌, ◌^◌, ◌<◌, ◌≤◌, ◌≡◌, ◌≢◌, refl, ap, inl, inr, true, false, Bool-cases,
  ◌==◌, List, [], ◌∷◌, ◌++◌, length, length-append, All, take, arith,
}
use azure_iot_gateway_sdk.Base.Outcome.{ok, Safe}
use azure_iot_gateway_sdk.Broker.State.{Topic}
use azure_iot_gateway_sdk.Broker.Links.{handle_bytes}
use azure_iot_gateway_sdk.Broker.Worker.{strncmp_eq, is_quit}

-- A unique id: 36 characters, none of them zero.
pub record IsGuid (guid : Topic) : Type 0 where
  pub long : length guid ≡ 36
  pub text : All (λ b. b ≢ 0) guid

strncmp_eq_refl :
    (n : ℕ) (text rest : List ℕ) → length text ≡ n → strncmp_eq n text (text ++ rest) ≡ ok true
unfolding strncmp_eq
strncmp_eq_refl zero text rest h = refl
strncmp_eq_refl (suc n) [] rest h = absurd (omega arith)
strncmp_eq_refl (suc n) (a ∷ text) rest h = ground (arith, strncmp_eq_refl n text rest)

pub is_quit-guid : (guid : Topic) → IsGuid guid → is_quit guid (guid ++ 0 ∷ []) ≡ ok true
unfolding is_quit
is_quit-guid guid g =
    rw (strncmp_eq_refl 36 guid (0 ∷ []) g.long, length-append guid (0 ∷ []), g.long)

-- A zero byte that comes before the end of the text ends the comparison.
strncmp_eq_zero :
    (n : ℕ) (front text rest : List ℕ)
    → length front < n
    → length front < length text
    → All (λ b. b ≢ 0) text
    → strncmp_eq n text (front ++ 0 ∷ rest) ≡ ok false
unfolding strncmp_eq
strncmp_eq_zero zero front text rest h k t = absurd (omega arith)
strncmp_eq_zero (suc n) front [] rest h k t = absurd (omega arith)
strncmp_eq_zero (suc n) [] (a ∷ text) rest h k t = ground arith
strncmp_eq_zero (suc n) (f ∷ front) (a ∷ text) rest h k t =
    ground (arith, strncmp_eq_zero n front text rest)

-- A frame from a handle whose top byte is zero, as that of every user address, is no quit signal.
pub not-is_quit :
    (guid : Topic) (source : ℕ) (rest : List ℕ)
    → IsGuid guid
    → source < 2 ^ 56
    → is_quit guid (handle_bytes source ++ rest) ≡ ok false
unfolding is_quit
not-is_quit guid source rest g h = ground (
  arith,
  strncmp_eq_zero 36 (take 7 (handle_bytes source)) guid rest,
  ap (λ (b : ℕ). strncmp_eq 36 guid (take 7 (handle_bytes source) ++ b ∷ rest)) top,
)
  where
    top : source / 2 ^ 56 % 256 ≡ 0
    top = omega arith

-- A comparison that has all its bytes reads none behind them.
strncmp_eq-Safe :
    (n : ℕ) (text bytes : List ℕ)
    → n ≤ length bytes
    → Safe (λ quit. Unit {0}) (strncmp_eq n text bytes)
unfolding strncmp_eq
strncmp_eq-Safe zero text bytes h = tt
strncmp_eq-Safe (suc n) text [] h = absurd (omega arith)
strncmp_eq-Safe (suc n) [] (b ∷ bytes) h = tt
strncmp_eq-Safe (suc n) (a ∷ text) (b ∷ bytes) h = elim (Bool-cases (a == b)) [
  | inr differ ↦ rw differ tt
  | inl same ↦ rw same (elim (Bool-cases (a == 0)) [
    | inl ends ↦ rw ends tt
    | inr on ↦ rw on (strncmp_eq-Safe n text bytes (omega arith))
  ])
]

pub is_quit-Safe : (guid : Topic) (buf : List ℕ) → Safe (λ quit. Unit {0}) (is_quit guid buf)
unfolding is_quit
is_quit-Safe guid buf = elim (Bool-cases (length buf == 37)) [
  | inr other ↦ rw other tt
  | inl long ↦ rw long (strncmp_eq-Safe 36 guid buf (ground arith))
]
