-- ===== src/Gateway/Search.antt =====
-- The searches in the vectors of core/src/gateway_ll.c: what is found, and what an erasure leaves.
use azure_iot_gateway_sdk.Base.{
  suc, ◌≡◌, ◌≢◌, refl, sym, ap, ◌∙◌, inl, inr, Bool, true, false, some, none, List, [], ◌∷◌, ◌++◌,
  length, All, Among, Bool-cases, arith,
}
use azure_iot_gateway_sdk.Gateway.State.{
  Name, ModuleData, strcmp_eq, find_if, erase_if, module_name_find,
}

pub strcmp_eq_refl : (a : Name) → strcmp_eq a a ≡ true
unfolding strcmp_eq
strcmp_eq_refl [] = refl
strcmp_eq_refl (b ∷ bs) = ground (arith, strcmp_eq_refl bs)

pub strcmp_eq→eq : (a b : Name) → strcmp_eq a b ≡ true → a ≡ b
unfolding strcmp_eq
strcmp_eq→eq [] [] h = refl
strcmp_eq→eq [] (b ∷ bs) h = cc
strcmp_eq→eq (a ∷ as') [] h = cc
strcmp_eq→eq (a ∷ as') (b ∷ bs) h = ground (arith, strcmp_eq→eq as' bs)

module _ {A : Type 0} (p : A → Bool) where
  pub find_if-Among : (xs : List A) (x : A) → find_if p xs ≡ some x → Among x xs × (p x ≡ true)
  unfolding find_if
  find_if-Among [] x e = absurd cc
  find_if-Among (y ∷ ys) x e = elim (Bool-cases (p y)) [
    | inl hit ↦ let same : y ≡ x = cc in (inl (sym same), ap p (sym same) ∙ hit)
    | inr miss ↦ let (among, fits) = find_if-Among ys x (rw miss at e) in (inr among, fits)
  ]

  pub find_if-none : (xs : List A) → find_if p xs ≡ none → All (λ x. p x ≡ false) xs
  unfolding find_if
  find_if-none [] e = tt
  find_if-none (y ∷ ys) e = elim (Bool-cases (p y)) [
    | inl hit ↦ absurd cc
    | inr miss ↦ (miss, find_if-none ys (rw miss at e))
  ]

  pub erase_if-Among :
      (xs : List A) (d y : A) → find_if p xs ≡ some d → y ≢ d → Among y xs → Among y (erase_if p xs)
  unfolding find_if erase_if
  erase_if-Among [] d y e ne a = a
  erase_if-Among (x ∷ xs) d y e ne a = elim (Bool-cases (p x)) [
    | inl hit ↦ rw hit (elim a [ inl same ↦ absurd (ne (same ∙ cc)) | inr later ↦ later ])
    | inr miss ↦ rw miss (elim a [
      | inl same ↦ inl same
      | inr later ↦ inr (erase_if-Among xs d y (rw miss at e) ne later)
    ])
  ]

  pub erase_if-All : (P : A → Type 0) (xs : List A) → All P xs → All P (erase_if p xs)
  unfolding erase_if
  erase_if-All P [] h = tt
  erase_if-All P (x ∷ xs) h = elim (Bool-cases (p x)) [
    | inl hit ↦ rw hit h.1
    | inr miss ↦ rw miss (h.0, erase_if-All P xs h.1)
  ]

  pub length-erase_if :
      (xs : List A) (d : A) → find_if p xs ≡ some d → length xs ≡ suc (length (erase_if p xs))
  unfolding find_if erase_if
  length-erase_if [] d e = absurd cc
  length-erase_if (x ∷ xs) d e = elim (Bool-cases (p x)) [
    | inl hit ↦ rw hit refl
    | inr miss ↦ rw miss (ap suc (length-erase_if xs d (rw miss at e)))
  ]

pub All-append :
    {A : Type 0} (P : A → Type 0) (xs : List A) (x : A) → All P xs → P x → All P (xs ++ x ∷ [])
All-append P [] x h hx = (hx, tt)
All-append P (y ∷ ys) x h hx = (h.0, All-append P ys x h.1 hx)

pub All-mono :
    {A : Type 0} (P Q : A → Type 0) (xs : List A) → ((x : A) → P x → Q x) → All P xs → All Q xs
All-mono P Q [] f h = tt
All-mono P Q (x ∷ xs) f h = (f x h.0, All-mono P Q xs f h.1)

pub Among-append : {A : Type 0} (xs : List A) (x y : A) → Among x xs → Among x (xs ++ y ∷ [])
Among-append [] x y a = absurd a
Among-append (z ∷ zs) x y (inl e) = inl e
Among-append (z ∷ zs) x y (inr a) = inr (Among-append zs x y a)

-- No two modules have one name.
abbrev pub AreDistinct : List ModuleData → Type 0
AreDistinct [] = Unit {0}
AreDistinct (d ∷ ds) =
    All (λ (m : ModuleData). strcmp_eq d.module_name m.module_name ≡ false) ds × AreDistinct ds

pub append-AreDistinct :
    (ds : List ModuleData) (new : ModuleData)
    → AreDistinct ds
    → All (λ d. module_name_find new.module_name d ≡ false) ds
    → AreDistinct (ds ++ new ∷ [])
unfolding module_name_find
append-AreDistinct [] new h fresh = (tt, tt)
append-AreDistinct (d ∷ ds) new h fresh =
    (All-append _ ds new h.0 fresh.0, append-AreDistinct ds new h.1 fresh.1)

pub erase_if-AreDistinct :
    (p : ModuleData → Bool) (ds : List ModuleData) → AreDistinct ds → AreDistinct (erase_if p ds)
unfolding erase_if
erase_if-AreDistinct p [] h = tt
erase_if-AreDistinct p (d ∷ ds) h = elim (Bool-cases (p d)) [
  | inl hit ↦ rw hit h.1
  | inr miss ↦ rw miss (erase_if-All p _ ds h.0, erase_if-AreDistinct p ds h.1)
]
