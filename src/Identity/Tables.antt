-- ===== src/Identity/Tables.antt =====
-- `strcmp`, `qsort` and `bsearch` as modules/identitymap/src/identitymap.c uses them, with its two orders.
use azure_iot_gateway_sdk.Base.{◌≡◌, ◌≢◌, Option, some, none, List, [], ◌∷◌, length, All, Among}
use Prim.Native.Nat.{compare, Ordering}
use azure_iot_gateway_sdk.Message.Shared.{Text}
use azure_iot_gateway_sdk.Identity.Config.{Mapping}

-- The sign of what `strcmp` returns; the characters are unsigned.
unfoldable pub strcmp : Text → Text → Ordering
strcmp [] [] = Ordering.eq
strcmp [] (b ∷ bs) = Ordering.lt
strcmp (a ∷ as') [] = Ordering.gt
strcmp (a ∷ as') (b ∷ bs) = elim (compare a b) [
  | Ordering.lt ↦ Ordering.lt
  | Ordering.gt ↦ Ordering.gt
  | Ordering.eq ↦ strcmp as' bs
]

abbrev pub compare_by : (Mapping → Text) → Mapping → Mapping → Ordering
compare_by field a b = strcmp (field a) (field b)

abbrev pub mac_compare : Mapping → Mapping → Ordering
mac_compare = compare_by λ m. m.mac_address

abbrev pub id_compare : Mapping → Mapping → Ordering
id_compare = compare_by λ m. m.device_id

-- Neighbours stand in order.
abbrev pub IsSorted : (Mapping → Mapping → Ordering) → List Mapping → Type 0
IsSorted order [] = Unit {0}
IsSorted order (x ∷ []) = Unit {0}
IsSorted order (x ∷ y ∷ rest) = (order x y ≢ Ordering.gt) × IsSorted order (y ∷ rest)

-- `qsort` leaves open how equal elements stand, and `bsearch` which of them it finds.
pub record TableLib : Type 0 where
  pub qsort : (Mapping → Mapping → Ordering) → List Mapping → List Mapping
  pub bsearch : Mapping → List Mapping → (Mapping → Mapping → Ordering) → Option Mapping

-- What the C standard says of them, for an order by a string.
pub record TableLaws (t : TableLib) : Type 0 where
  pub qsort-IsSorted :
      (field : Mapping → Text) (xs : List Mapping)
      → IsSorted (compare_by field) (t.qsort (compare_by field) xs)
  pub length-qsort :
      (field : Mapping → Text) (xs : List Mapping)
      → length (t.qsort (compare_by field) xs) ≡ length xs
  pub qsort_keeps :
      (field : Mapping → Text) (xs : List Mapping) (x : Mapping)
      → Among x xs
      → Among x (t.qsort (compare_by field) xs)
  pub qsort_adds_none :
      (field : Mapping → Text) (xs : List Mapping) (x : Mapping)
      → Among x (t.qsort (compare_by field) xs)
      → Among x xs
  pub bsearch_found :
      (field : Mapping → Text) (key : Mapping) (xs : List Mapping) (x : Mapping)
      → t.bsearch key xs (compare_by field) ≡ some x
      → Among x xs × (compare_by field key x ≡ Ordering.eq)
  pub bsearch_missing :
      (field : Mapping → Text) (key : Mapping) (xs : List Mapping)
      → IsSorted (compare_by field) xs
      → t.bsearch key xs (compare_by field) ≡ none
      → All (λ x. compare_by field key x ≢ Ordering.eq) xs
