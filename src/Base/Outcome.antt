-- ===== src/Base/Outcome.antt =====
-- How a C routine ends: with a value, by its error path, or in undefined behaviour.
use mathlib.Core.Path.{◌≡◌, refl}
use mathlib.Core.Bool.{Bool, true, false}
use mathlib.Core.Option.{Option, none, some}

-- `fault` is an access outside an array or a failed `assert`: such a run has no meaning.
pub data Outcome {ℓ} (A : Type ℓ) : Type ℓ where
  ok : A → Outcome A
  fail : Outcome A
  fault : Outcome A

infixl 5 ◌>>=◌
abbrev pub ◌>>=◌ {ℓ κ} : {A : Type ℓ} {B : Type κ} → Outcome A → (A → Outcome B) → Outcome B
ok a >>= f = f a
fail >>= f = fail
fault >>= f = fault

infixl 5 ◌>>◌
abbrev pub ◌>>◌ {ℓ} : {B : Type ℓ} → Outcome (Unit {0}) → Outcome B → Outcome B
m >> k = m >>= λ _. k

-- A test whose failure takes the error path.
abbrev pub guard : Bool → Outcome (Unit {0})
guard true = ok tt
guard false = fail

-- `NULL` from a library call takes the error path.
abbrev pub or_fail {ℓ} : {A : Type ℓ} → Option A → Outcome A
or_fail none = fail
or_fail (some a) = ok a

-- Every value satisfies `P`, and the run has a meaning.
abbrev pub Safe {ℓ} : {A : Type ℓ} → (A → Type 0) → Outcome A → Type 0
Safe P (ok a) = P a
Safe P fail = Unit {0}
Safe P fault = ⊥

pub >>=-Safe {ℓ κ} :
    {A : Type ℓ} {B : Type κ} (P : A → Type 0) (Q : B → Type 0) (m : Outcome A) (f : A → Outcome B)
    → Safe P m
    → ((a : A) → P a → Safe Q (f a))
    → Safe Q (m >>= f)
>>=-Safe P Q (ok a) f h k = k a h
>>=-Safe P Q fail f h k = tt
>>=-Safe P Q fault f h k = absurd h

pub or_fail-Safe : {A : Type 0} (o : Option A) → Safe (λ a. o ≡ some a) (or_fail o)
or_fail-Safe none = tt
or_fail-Safe (some a) = refl

pub guard-Safe : (b : Bool) → Safe (λ _. b ≡ true) (guard b)
guard-Safe true = refl
guard-Safe false = tt

pub Safe-mono {ℓ} :
    {A : Type ℓ} (P Q : A → Type 0) (m : Outcome A) → Safe P m → ((a : A) → P a → Q a) → Safe Q m
Safe-mono P Q (ok a) h k = k a h
Safe-mono P Q fail h k = tt
Safe-mono P Q fault h k = h
