-- ===== src/Identity/Valid.antt =====
-- IdentityMap_Create (modules/identitymap/src/identitymap.c) accepts every valid configuration, where there is
-- memory.
use azure_iot_gateway_sdk.Base.{
  ℕ, ◌+◌, ◌≡◌, ◌≢◌, refl, inl, inr, map, true, Option, some, none, List, [], ◌∷◌, Bool-cases,
}
use azure_iot_gateway_sdk.Message.Shared.{Text}
use azure_iot_gateway_sdk.Broker.World.{World}
use azure_iot_gateway_sdk.Identity.Config.{
  IdentityMapConfig, Mapping, toupper, malloc_and_strcpy, upper_text, to_upper_case, with_key,
  with_id, with_mac, copy_deep, valid_fields, valid_element, valid_elements, validate_config,
}
use azure_iot_gateway_sdk.Identity.Tables.{TableLib}
use azure_iot_gateway_sdk.Identity.Create.{
  CopyPair, with_second, with_first, copy_all, with_copies, fill_tables, allocate_tables,
  identity_map_create,
}

-- Every allocation succeeds.
abbrev pub HasBlocks : World → Type 0
HasBlocks w = (n : ℕ) → w.oracle n ≡ true

abbrev bump : World → World
bump w = record w { calls = w.calls + 1; memory = w.memory + 1 }

strcpy_made :
    (text : Text) (w : World) → HasBlocks w → malloc_and_strcpy (some text) w ≡ (some text, bump w)
unfolding malloc_and_strcpy
strcpy_made text w there = rw (there w.calls) refl

Filled : IdentityMapConfig → Type 0
Filled element =
    (mac : Text) × (id : Text) × (key : Text) × (element.mac_address ≡ some mac)
    × (element.device_id ≡ some id)
    × (element.device_key ≡ some key)

valid_fields-Filled :
    (mac id key : Option Text)
    → valid_fields mac id key ≡ true
    → (m : Text) × (i : Text) × (k : Text) × (mac ≡ some m) × (id ≡ some i) × (key ≡ some k)
unfolding valid_fields
valid_fields-Filled mac none key h = absurd cc
valid_fields-Filled mac (some id) none h = absurd cc
valid_fields-Filled none (some id) (some key) h = absurd cc
valid_fields-Filled (some mac) (some id) (some key) h = (mac, id, key, refl, refl, refl)

copy_made :
    (element : IdentityMapConfig) (w : World)
    → HasBlocks w
    → valid_element element ≡ true
    → (m : Mapping) × (copy_deep element w ≡ (some m, bump (bump (bump w))))
unfolding copy_deep to_upper_case upper_text with_mac with_id with_key valid_element
copy_made element w there valid =
    let (mac, id, key, hm, hi, hk) =
      valid_fields-Filled element.mac_address element.device_id element.device_key valid in
    (
      record { mac_address = map toupper mac; device_id = id; device_key = key },
      rw
          (
            hm,
            strcpy_made mac w there,
            hi,
            strcpy_made id (bump w) there,
            hk,
            strcpy_made key (bump (bump w)) there,
          )
          refl,
    )

copy_all_made :
    (elements : List IdentityMapConfig) (w : World)
    → HasBlocks w
    → valid_elements elements ≡ true
    → (copies : List CopyPair) × (w' : World) × (copy_all elements w ≡ ((true, copies), w'))
unfolding copy_all with_first with_second valid_elements
copy_all_made [] w there valid = ([], w, refl)
copy_all_made (element ∷ elements) w there valid = elim (Bool-cases (valid_element element)) [
  | inr invalid ↦ absurd (cc (rw invalid at valid))
  | inl fine ↦
      let (first, made) = copy_made element w there fine in
      let w3 = bump (bump (bump w)) in
      let (second, made') = copy_made element w3 there fine in
      let (copies, w', more) =
        copy_all_made elements (bump (bump (bump w3))) there (rw fine at valid) in
      ((first, second) ∷ copies, w', rw (made, with_first, made', with_second, more) refl)
]

-- Where every allocation succeeds, IdentityMap_Create makes a module of every valid configuration.
pub identity_map_create-ne-none :
    (t : TableLib) (broker : ℕ) (elements : List IdentityMapConfig) (w : World)
    → HasBlocks w
    → validate_config elements ≡ true
    → (identity_map_create t (some broker) (some elements) w).0 ≢ none
unfolding identity_map_create validate_config allocate_tables fill_tables with_copies
identity_map_create-ne-none t broker [] w there valid h = cc
identity_map_create-ne-none t broker (element ∷ elements) w there valid h =
    let (copies, w', made) =
      copy_all_made (element ∷ elements) (bump (bump (bump w))) there valid in
    cc (
      rw
        (
          valid,
          there w.calls,
          there (w.calls + 1),
          there (w.calls + 1 + 1),
          allocate_tables,
          fill_tables,
          made,
        )
        at h)
