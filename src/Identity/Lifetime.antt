-- ===== src/Identity/Lifetime.antt =====
-- IdentityMap_Create and IdentityMap_Destroy (modules/identitymap/src/identitymap.c): the memory, and the
-- entries of the tables.
use azure_iot_gateway_sdk.Base.{
  ℕ, suc, ◌+◌, ◌*◌, ◌⊎◌, ◌-◌, ◌≡◌, refl, sym, ap, ◌∙◌, subst, inl, inr, Bool, true, false, Option,
  some, none, List, [], ◌∷◌, length, map, Among, Bool-cases, arith,
}
use azure_iot_gateway_sdk.Message.Shared.{Text}
use azure_iot_gateway_sdk.Broker.World.{World, M}
use azure_iot_gateway_sdk.Identity.Config.{
  IdentityMapConfig, Mapping, copy_deep, free_mapping, validate_config,
}
use azure_iot_gateway_sdk.Identity.Tables.{
  compare_by, mac_compare, id_compare, IsSorted, TableLib, TableLaws,
}
use azure_iot_gateway_sdk.Identity.Create.{
  IdentityMapData, CopyPair, with_second, with_first, copy_all, free_copies, firsts, seconds,
  with_copies, fill_tables, allocate_tables, identity_map_create, free_tables, identity_map_destroy,
}
use azure_iot_gateway_sdk.Identity.Creation.{stored, Stored, copy_deep-Stored}

abbrev copies_of : List IdentityMapConfig → List CopyPair
copies_of = map λ element. (stored element, stored element)

-- Six strings for each element that is copied into both arrays.
abbrev Filled : List IdentityMapConfig → ℕ → (Bool × List CopyPair) × World → Type 0
Filled elements n ((true, copies), w) =
    (w.memory ≡ n + 6 * length elements) × (copies ≡ copies_of elements)
Filled elements n ((false, copies), w) = w.memory ≡ n + 6 * length copies

module _ (element : IdentityMapConfig) (elements : List IdentityMapConfig) (n : ℕ) where
  more-Filled :
      (r : (Bool × List CopyPair) × World)
      → Filled elements (n + 6) r
      → Filled (element ∷ elements) n ((r.0.0, (stored element, stored element) ∷ r.0.1), r.1)
  more-Filled ((true, copies), w) (h, same) =
      (omega arith, ap (λ cs. (stored element, stored element) ∷ cs) same)
  more-Filled ((false, copies), w) h = omega arith

  with_second-Filled :
      (first : Mapping) (second : Option Mapping × World) (next : M (Bool × List CopyPair))
      → first ≡ stored element
      → Stored element (n + 3) second
      → ((w : World) → w.memory ≡ n + 6 → Filled elements (n + 6) (next w))
      → Filled (element ∷ elements) n (with_second first second.0 next second.1)
  unfolding with_second free_mapping
  with_second-Filled first (none, w) next same h k = omega arith
  with_second-Filled first (some second, w) next same (h, same') k =
      rw (same, same') (more-Filled (next w) (k w (omega arith)))

  with_first-Filled :
      (first : Option Mapping × World) (next : M (Bool × List CopyPair))
      → Stored element n first
      → ((w : World) → w.memory ≡ n + 6 → Filled elements (n + 6) (next w))
      → Filled (element ∷ elements) n (with_first element first.0 next first.1)
  unfolding with_first
  with_first-Filled (none, w) next h k = omega arith
  with_first-Filled (some first, w) next (h, same) k =
      with_second-Filled first (copy_deep element w) next same
        (subst (λ i. Stored element i (copy_deep element w)) h (copy_deep-Stored element w)) k

copy_all-Filled :
    (elements : List IdentityMapConfig) (n : ℕ) (w : World)
    → w.memory ≡ n
    → Filled elements n (copy_all elements w)
unfolding copy_all
copy_all-Filled [] n w h = (omega arith, refl)
copy_all-Filled (element ∷ elements) n w h =
    with_first-Filled element elements n (copy_deep element w) (copy_all elements)
      (subst (λ i. Stored element i (copy_deep element w)) h (copy_deep-Stored element w))
      (λ w' h'. copy_all-Filled elements (n + 6) w' h')

free_copies-memory :
    (copies : List CopyPair) (n : ℕ) (w : World)
    → w.memory ≡ n + 6 * length copies
    → (free_copies copies w).1.memory ≡ n
unfolding free_copies free_mapping
free_copies-memory [] n w h = omega arith
free_copies-memory ((first, second) ∷ copies) n w h =
    free_copies-memory copies n (record w { memory = w.memory - 1 - 1 - 1 - 1 - 1 - 1 })
      (omega arith)

pub free_tables-memory :
    (xs ys : List Mapping) (n : ℕ) (w : World)
    → length xs ≡ length ys
    → w.memory ≡ n + 6 * length xs
    → (free_tables xs ys w).1.memory ≡ n
unfolding free_tables free_mapping
free_tables-memory [] ys n w same h = omega arith
free_tables-memory (x ∷ xs) [] n w same h = absurd (omega arith)
free_tables-memory (x ∷ xs) (y ∷ ys) n w same h =
    free_tables-memory xs ys n (record w { memory = w.memory - 1 - 1 - 1 - 1 - 1 - 1 })
      (omega arith) (omega arith)

-- A table of the module, sorted by one of its strings: its entries are those of the configuration.
pub record IsTable (field : Mapping → Text) (elements : List IdentityMapConfig)
    (table : List Mapping) : Type 0 where
  pub sorted : IsSorted (compare_by field) table
  pub size : length table ≡ length elements
  pub sound : (x : Mapping) → Among x table → Among x (map stored elements)
  pub complete : (x : Mapping) → Among x (map stored elements) → Among x table

firsts-copies_of :
    (elements : List IdentityMapConfig) → firsts (copies_of elements) ≡ map stored elements
firsts-copies_of [] = refl
firsts-copies_of (element ∷ elements) = ap (λ ms. stored element ∷ ms) (firsts-copies_of elements)

seconds-copies_of :
    (elements : List IdentityMapConfig) → seconds (copies_of elements) ≡ map stored elements
seconds-copies_of [] = refl
seconds-copies_of (element ∷ elements) = ap (λ ms. stored element ∷ ms) (seconds-copies_of elements)

length-stored : (elements : List IdentityMapConfig) → length (map stored elements) ≡ length elements
length-stored [] = refl
length-stored (element ∷ elements) = ap suc (length-stored elements)

module _ (t : TableLib) (laws : TableLaws t) where
  open laws use {qsort-IsSorted, length-qsort, qsort_keeps, qsort_adds_none}

  qsort-IsTable :
      (field : Mapping → Text) (elements : List IdentityMapConfig) (ms : List Mapping)
      → ms ≡ map stored elements
      → IsTable field elements (t.qsort (compare_by field) ms)
  qsort-IsTable field elements ms same = record {
    sorted = qsort-IsSorted field ms;
    size = length-qsort field ms ∙ ap length same ∙ length-stored elements;
    sound = λ x among. subst (Among x) same (qsort_adds_none field ms x among);
    complete = λ x among. qsort_keeps field ms x (subst (Among x) (sym same) among);
  }

  -- A null pointer is returned with the memory as it was, or a module with both tables, whose destruction
  -- gives all its memory back.
  abbrev pub Made : ℕ → List IdentityMapConfig → World → Option IdentityMapData × World → Type 0
  Made broker elements w (none, w') = w'.memory ≡ w.memory
  Made broker elements w (some d, w') =
      (d.broker ≡ broker)
      × (d.mapping_size ≡ length elements)
      × IsTable (λ m. m.mac_address) elements d.mac_to_dev_id_array
      × IsTable (λ m. m.device_id) elements d.dev_id_to_mac_array
      × (w'.memory ≡ w.memory + 3 + 6 * length elements)
      × ((identity_map_destroy (some d) w').1.memory ≡ w.memory)

  module _ (broker : ℕ) (elements : List IdentityMapConfig) (w0 : World) where
    with_copies-Made :
        (r : (Bool × List CopyPair) × World)
        → Filled elements (w0.memory + 3) r
        → Made broker elements w0 (with_copies t broker (length elements) r.0.0 r.0.1 r.1)
    unfolding with_copies identity_map_destroy
    with_copies-Made ((true, copies), w) (h, same) =
        let macs =
          qsort-IsTable (λ m. m.mac_address) elements (firsts copies)
            (ap firsts same ∙ firsts-copies_of elements) in
        let ids =
          qsort-IsTable (λ m. m.device_id) elements (seconds copies)
            (ap seconds same ∙ seconds-copies_of elements) in
        let back =
          free_tables-memory (t.qsort mac_compare (firsts copies))
            (t.qsort id_compare (seconds copies)) (w0.memory + 3) w (macs.size ∙ sym ids.size)
            (omega (arith, macs.size)) in
        (refl, refl, macs, ids, h, omega (arith, back))
    with_copies-Made ((false, copies), w) h =
        omega (arith, free_copies-memory copies (w0.memory + 3) w h)

    allocate_tables-Made : Made broker elements w0 (allocate_tables t broker elements w0)
    unfolding allocate_tables fill_tables
    allocate_tables-Made = elim (Bool-cases (w0.oracle w0.calls)) [
      | inr failed ↦ rw (failed, allocate_tables) refl
      | inl made ↦ elim (Bool-cases (w0.oracle (w0.calls + 1))) [
        | inr failed ↦ rw (made, failed, allocate_tables) (omega arith)
        | inl made' ↦ elim (Bool-cases (w0.oracle (w0.calls + 1 + 1))) [
          | inr failed ↦ rw (made, made', failed, allocate_tables) (omega arith)
          | inl made'' ↦
              let w : World = record w0 {
                calls = w0.calls + 1 + 1 + 1;
                memory = w0.memory + 1 + 1 + 1;
              } in
              rw (made, made', made'', allocate_tables, fill_tables)
                (with_copies-Made (copy_all elements w)
                  (copy_all-Filled elements (w0.memory + 3) w (omega arith)))
        ]
      ]
    ]

  -- The result of IdentityMap_Create for arguments that may be null pointers.
  abbrev pub Created :
      Option ℕ → Option (List IdentityMapConfig) → World → Option IdentityMapData × World → Type 0
  Created (some broker) (some elements) w r =
      Made broker elements w r × ((r.0 ≡ none) ⊎ (validate_config elements ≡ true))
  Created broker configuration w r = r ≡ (none, w)

  -- IdentityMap_Create, where `qsort` sorts, and whichever blocks of memory are there, returns a null pointer
  -- and holds no more memory than before, as it does for a null argument and an invalid configuration; or
  -- it returns a module of a valid configuration with the broker, in whose two tables, sorted by MAC address
  -- and by device id, are the elements of the configuration and nothing else, with the MAC addresses in upper
  -- case. IdentityMap_Destroy gives exactly its memory back.
  pub identity_map_create-Created :
      (broker : Option ℕ) (configuration : Option (List IdentityMapConfig)) (w : World)
      → Created broker configuration w (identity_map_create t broker configuration w)
  unfolding identity_map_create
  identity_map_create-Created none none w = refl
  identity_map_create-Created none (some elements) w = refl
  identity_map_create-Created (some broker) none w = refl
  identity_map_create-Created (some broker) (some elements) w =
      elim (Bool-cases (validate_config elements)) [
        | inl valid ↦
            rw (valid, identity_map_create) (allocate_tables-Made broker elements w, inr refl)
        | inr invalid ↦ rw (invalid, identity_map_create) (refl, inl refl)
      ]
