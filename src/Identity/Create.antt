-- ===== src/Identity/Create.antt =====
-- modules/identitymap/src/identitymap.c: IdentityMap_Create and IdentityMap_Destroy.
use azure_iot_gateway_sdk.Base.{
  ℕ, Bool, true, false, Option, some, none, List, [], ◌∷◌, length, map, if◌then◌else◌,
}
use azure_iot_gateway_sdk.Broker.World.{M, pure, ◌>>=◌, ◌>>◌, malloc, free}
use azure_iot_gateway_sdk.Identity.Config.{
  IdentityMapConfig, Mapping, copy_deep, free_mapping, validate_config,
}
use azure_iot_gateway_sdk.Identity.Tables.{TableLib, mac_compare, id_compare}

-- IDENTITY_MAP_DATA; `broker` is an address.
pub record IdentityMapData : Type 0 where
  pub broker : ℕ
  pub mapping_size : ℕ
  pub mac_to_dev_id_array : List Mapping
  pub dev_id_to_mac_array : List Mapping

-- The copies of one element in the two arrays.
abbrev pub CopyPair : Type 0
CopyPair = Mapping × Mapping

unfoldable pub with_second :
    Mapping → Option Mapping → M (Bool × List CopyPair) → M (Bool × List CopyPair)
with_second first none next = do free_mapping first; pure (false, [])
with_second first (some second) next = do
  (done, copies) ← next
  pure (done, (first, second) ∷ copies)

unfoldable pub with_first :
    IdentityMapConfig → Option Mapping → M (Bool × List CopyPair) → M (Bool × List CopyPair)
with_first element none next = pure (false, [])
with_first element (some first) next = do second ← copy_deep element; with_second first second next

-- The loop up to the first failure, with what stands in the arrays before it.
unfoldable pub copy_all : List IdentityMapConfig → M (Bool × List CopyPair)
copy_all [] = pure (true, [])
copy_all (element ∷ elements) = do
  first ← copy_deep element
  with_first element first (copy_all elements)

unfoldable pub free_copies : List CopyPair → M (Unit {0})
free_copies [] = pure tt
free_copies ((first, second) ∷ copies) = do
  free_mapping first
  free_mapping second
  free_copies copies

abbrev pub firsts : List CopyPair → List Mapping
firsts = map λ c. c.0

abbrev pub seconds : List CopyPair → List Mapping
seconds = map λ c. c.1

module _ (t : TableLib) where
  unfoldable pub with_copies : ℕ → ℕ → Bool → List CopyPair → M (Option IdentityMapData)
  with_copies broker size true copies = pure (
      some (record {
        broker = broker;
        mapping_size = size;
        mac_to_dev_id_array = t.qsort mac_compare (firsts copies);
        dev_id_to_mac_array = t.qsort id_compare (seconds copies);
      }))
  with_copies broker size false copies = do free_copies copies; free; free; free; pure none

  unfoldable pub fill_tables : ℕ → List IdentityMapConfig → M (Option IdentityMapData)
  fill_tables broker mapping = do
    (done, copies) ← copy_all mapping
    with_copies broker (length mapping) done copies

  unfoldable pub allocate_tables : ℕ → List IdentityMapConfig → M (Option IdentityMapData)
  allocate_tables broker mapping = do
    result ← malloc
    if result
        then (do
          mac_to_dev_id ← malloc
          if mac_to_dev_id
              then (do
                dev_id_to_mac ← malloc
                if dev_id_to_mac then fill_tables broker mapping else (do free; free; pure none))
              else (do free; pure none))
        else pure none

  -- `none` is a null pointer.
  unfoldable pub identity_map_create :
      Option ℕ → Option (List IdentityMapConfig) → M (Option IdentityMapData)
  identity_map_create none configuration = pure none
  identity_map_create (some broker) none = pure none
  identity_map_create (some broker) (some mapping) =
      if validate_config mapping then allocate_tables broker mapping else pure none

-- The loop over both arrays, with the rounds that are left.
unfoldable pub free_tables : List Mapping → List Mapping → M (Unit {0})
free_tables [] ys = pure tt
free_tables (x ∷ xs) [] = pure tt
free_tables (x ∷ xs) (y ∷ ys) = do free_mapping x; free_mapping y; free_tables xs ys

unfoldable pub identity_map_destroy : Option IdentityMapData → M (Unit {0})
identity_map_destroy none = pure tt
identity_map_destroy (some d) = do
  free_tables d.mac_to_dev_id_array d.dev_id_to_mac_array
  free
  free
  free
