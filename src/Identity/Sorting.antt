-- ===== src/Identity/Sorting.antt =====
-- An insertion sort and a linear search, which are a `qsort` and a `bsearch` as
-- modules/identitymap/src/identitymap.c relies on them.
use azure_iot_gateway_sdk.Base.{
  suc, ◌≡◌, ◌≢◌, ◌⊎◌, refl, sym, ap, ◌∙◌, inl, inr, Bool, true, false, Option, some, none, List, [],
  ◌∷◌, length, All, Among, Bool-cases, if◌then◌else◌, arith,
}
use Prim.Native.Nat.{Ordering}
use azure_iot_gateway_sdk.Message.Shared.{Text}
use azure_iot_gateway_sdk.Identity.Config.{Mapping}
use azure_iot_gateway_sdk.Identity.Tables.{strcmp, compare_by, IsSorted, TableLib, TableLaws}

abbrev pub is_gt : Ordering → Bool
is_gt Ordering.gt = true
is_gt Ordering.lt = false
is_gt Ordering.eq = false

abbrev pub is_eq : Ordering → Bool
is_eq Ordering.eq = true
is_eq Ordering.lt = false
is_eq Ordering.gt = false

gt_of : (o : Ordering) → is_gt o ≡ true → o ≡ Ordering.gt
gt_of Ordering.gt h = refl
gt_of Ordering.lt h = absurd cc
gt_of Ordering.eq h = absurd cc

not_gt_of : (o : Ordering) → is_gt o ≡ false → o ≢ Ordering.gt
not_gt_of Ordering.gt h e = cc
not_gt_of Ordering.lt h e = cc
not_gt_of Ordering.eq h e = cc

eq_of : (o : Ordering) → is_eq o ≡ true → o ≡ Ordering.eq
eq_of Ordering.eq h = refl
eq_of Ordering.lt h = absurd cc
eq_of Ordering.gt h = absurd cc

not_eq_of : (o : Ordering) → is_eq o ≡ false → o ≢ Ordering.eq
not_eq_of Ordering.eq h e = cc
not_eq_of Ordering.lt h e = cc
not_eq_of Ordering.gt h e = cc

strcmp_flips : (a b : Text) → strcmp a b ≡ Ordering.gt → strcmp b a ≢ Ordering.gt
unfolding strcmp
strcmp_flips [] [] h e = cc
strcmp_flips [] (b ∷ bs) h e = cc
strcmp_flips (a ∷ as') [] h e = cc
strcmp_flips (a ∷ as') (b ∷ bs) h e = ground (arith, strcmp_flips as' bs)

unfoldable pub insert : (Mapping → Mapping → Ordering) → Mapping → List Mapping → List Mapping
insert order x [] = x ∷ []
insert order x (y ∷ ys) =
    let rest = insert order x ys in if is_gt (order x y) then y ∷ rest else x ∷ y ∷ ys

unfoldable pub insertion_sort : (Mapping → Mapping → Ordering) → List Mapping → List Mapping
unfolding insert
insertion_sort order [] = []
insertion_sort order (x ∷ xs) = insert order x (insertion_sort order xs)

unfoldable pub linear_search :
    Mapping → List Mapping → (Mapping → Mapping → Ordering) → Option Mapping
linear_search key [] order = none
linear_search key (x ∷ xs) order =
    let rest = linear_search key xs order in if is_eq (order key x) then some x else rest

abbrev pub list_tables : TableLib
list_tables = record { qsort = insertion_sort; bsearch = linear_search }

module _ (field : Mapping → Text) where
  insert-IsSorted :
      (x : Mapping) (ys : List Mapping)
      → IsSorted (compare_by field) ys
      → IsSorted (compare_by field) (insert (compare_by field) x ys)
  unfolding insert
  insert-IsSorted x [] h = tt
  insert-IsSorted x (y ∷ []) h = elim (Bool-cases (is_gt (compare_by field x y))) [
    | inl after ↦ rw after (strcmp_flips (field x) (field y) (gt_of _ after), tt)
    | inr before ↦ rw before (not_gt_of _ before, tt)
  ]
  insert-IsSorted x (y ∷ z ∷ ys) h =
      let rest = insert-IsSorted x (z ∷ ys) h.1 in
      elim (Bool-cases (is_gt (compare_by field x y))) [
        | inr before ↦ rw before (not_gt_of _ before, h)
        | inl after ↦ elim (Bool-cases (is_gt (compare_by field x z))) [
          | inl after' ↦ rw (after, after') (h.0, rw after' at rest)
          | inr before' ↦
              rw (after, before')
                (strcmp_flips (field x) (field y) (gt_of _ after), rw before' at rest)
        ]
      ]

  insertion_sort-IsSorted :
      (xs : List Mapping) → IsSorted (compare_by field) (insertion_sort (compare_by field) xs)
  unfolding insertion_sort
  insertion_sort-IsSorted [] = tt
  insertion_sort-IsSorted (x ∷ xs) =
      insert-IsSorted x (insertion_sort (compare_by field) xs) (insertion_sort-IsSorted xs)

module _ (order : Mapping → Mapping → Ordering) where
  length-insert : (x : Mapping) (ys : List Mapping) → length (insert order x ys) ≡ suc (length ys)
  unfolding insert
  length-insert x [] = refl
  length-insert x (y ∷ ys) = elim (Bool-cases (is_gt (order x y))) [
    | inl after ↦ rw after (ap suc (length-insert x ys))
    | inr before ↦ rw before refl
  ]

  length-insertion_sort : (xs : List Mapping) → length (insertion_sort order xs) ≡ length xs
  unfolding insertion_sort
  length-insertion_sort [] = refl
  length-insertion_sort (x ∷ xs) =
      length-insert x (insertion_sort order xs) ∙ ap suc (length-insertion_sort xs)

  insert_keeps :
      (x z : Mapping) (ys : List Mapping) → (z ≡ x) ⊎ Among z ys → Among z (insert order x ys)
  unfolding insert
  insert_keeps x z [] h = h
  insert_keeps x z (y ∷ ys) h = elim (Bool-cases (is_gt (order x y))) [
    | inr before ↦ rw before h
    | inl after ↦ rw after (elim h [
      | inl same ↦ inr (insert_keeps x z ys (inl same))
      | inr (inl front) ↦ inl front
      | inr (inr later) ↦ inr (insert_keeps x z ys (inr later))
    ])
  ]

  insert_adds :
      (x z : Mapping) (ys : List Mapping) → Among z (insert order x ys) → (z ≡ x) ⊎ Among z ys
  unfolding insert
  insert_adds x z [] h = h
  insert_adds x z (y ∷ ys) h = elim (Bool-cases (is_gt (order x y))) [
    | inr before ↦ rw before at h
    | inl after ↦
        let h' : (z ≡ y) ⊎ Among z (insert order x ys) = rw after at h in
        elim h' [
          | inl front ↦ inr (inl front)
          | inr later ↦ elim (insert_adds x z ys later) [
            | inl same ↦ inl same
            | inr among ↦ inr (inr among)
          ]
        ]
  ]

  insertion_sort_keeps :
      (xs : List Mapping) (z : Mapping) → Among z xs → Among z (insertion_sort order xs)
  unfolding insertion_sort
  insertion_sort_keeps [] z h = h
  insertion_sort_keeps (x ∷ xs) z (inl same) = insert_keeps x z (insertion_sort order xs) (inl same)
  insertion_sort_keeps (x ∷ xs) z (inr later) =
      insert_keeps x z (insertion_sort order xs) (inr (insertion_sort_keeps xs z later))

  insertion_sort_adds_none :
      (xs : List Mapping) (z : Mapping) → Among z (insertion_sort order xs) → Among z xs
  unfolding insertion_sort
  insertion_sort_adds_none [] z h = h
  insertion_sort_adds_none (x ∷ xs) z h = elim (insert_adds x z (insertion_sort order xs) h) [
    | inl same ↦ inl same
    | inr among ↦ inr (insertion_sort_adds_none xs z among)
  ]

  linear_search_found :
      (key : Mapping) (xs : List Mapping) (x : Mapping)
      → linear_search key xs order ≡ some x
      → Among x xs × (order key x ≡ Ordering.eq)
  unfolding linear_search
  linear_search_found key [] x h = absurd cc
  linear_search_found key (y ∷ ys) x h = elim (Bool-cases (is_eq (order key y))) [
    | inl hit ↦
        let same : y ≡ x = cc (rw hit at h) in
        (inl (sym same), ap (order key) (sym same) ∙ eq_of _ hit)
    | inr miss ↦
        let (among, equal) = linear_search_found key ys x (rw miss at h) in (inr among, equal)
  ]

  linear_search_missing :
      (key : Mapping) (xs : List Mapping)
      → linear_search key xs order ≡ none
      → All (λ x. order key x ≢ Ordering.eq) xs
  unfolding linear_search
  linear_search_missing key [] h = tt
  linear_search_missing key (y ∷ ys) h = elim (Bool-cases (is_eq (order key y))) [
    | inl hit ↦ absurd (cc (rw hit at h))
    | inr miss ↦ (not_eq_of _ miss, linear_search_missing key ys (rw miss at h))
  ]

pub list_tables-laws : TableLaws list_tables
list_tables-laws = record {
  qsort-IsSorted = insertion_sort-IsSorted;
  length-qsort = λ field. length-insertion_sort (compare_by field);
  qsort_keeps = λ field. insertion_sort_keeps (compare_by field);
  qsort_adds_none = λ field. insertion_sort_adds_none (compare_by field);
  bsearch_found = λ field. linear_search_found (compare_by field);
  bsearch_missing = λ field key xs sorted. linear_search_missing (compare_by field) key xs;
}
