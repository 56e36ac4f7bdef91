-- ===== src/Identity/Creation.antt =====
-- IdentityMapConfig_CopyDeep (modules/identitymap/src/identitymap.c) copies an element or takes nothing.
use azure_iot_gateway_sdk.Base.{
  ℕ, ◌+◌, ◌≡◌, refl, subst, inl, inr, Option, some, none, [], map, Bool-cases, arith,
}
use azure_iot_gateway_sdk.Message.Shared.{Text}
use azure_iot_gateway_sdk.Broker.World.{World}
use azure_iot_gateway_sdk.Identity.Config.{
  IdentityMapConfig, Mapping, toupper, malloc_and_strcpy, upper_text, to_upper_case, with_key,
  with_id, with_mac, copy_deep,
}

abbrev pub or_empty : Option Text → Text
or_empty none = []
or_empty (some text) = text

-- The entry of an element of the configuration.
abbrev pub stored : IdentityMapConfig → Mapping
stored element = record {
  mac_address = map toupper (or_empty element.mac_address);
  device_id = or_empty element.device_id;
  device_key = or_empty element.device_key;
}

-- A string that is copied takes a block.
abbrev pub Copied : {A : Type 0} → (A → Type 0) → ℕ → ℕ → Option A × World → Type 0
Copied P before n (none, w) = w.memory ≡ before
Copied P before n (some a, w) = (w.memory ≡ before + n) × P a

malloc_and_strcpy-Copied :
    (text : Option Text) (w : World)
    → Copied (λ copy. text ≡ some copy) w.memory 1 (malloc_and_strcpy text w)
unfolding malloc_and_strcpy
malloc_and_strcpy-Copied none w = refl
malloc_and_strcpy-Copied (some text) w = elim (Bool-cases (w.oracle w.calls)) [
  | inl made ↦ rw (made, malloc_and_strcpy) (refl, refl)
  | inr failed ↦ rw (failed, malloc_and_strcpy) refl
]

module _ (source : IdentityMapConfig) (n : ℕ) where
  abbrev pub Stored : Option Mapping × World → Type 0
  Stored = Copied (λ m. m ≡ stored source) n 3

  with_key-Stored :
      (mac id : Text) (key : Option Text × World)
      → map toupper (or_empty source.mac_address) ≡ mac
      → source.device_id ≡ some id
      → Copied (λ copy. source.device_key ≡ some copy) (n + 2) 1 key
      → Stored (with_key mac id key.0 key.1)
  unfolding with_key
  with_key-Stored mac id (none, w) hm hi h = ground arith
  with_key-Stored mac id (some key, w) hm hi (h, hk) = (omega arith, rw (hi, hk, hm) refl)

  with_id-Stored :
      (mac : Text) (id : Option Text × World)
      → map toupper (or_empty source.mac_address) ≡ mac
      → Copied (λ copy. source.device_id ≡ some copy) (n + 1) 1 id
      → Stored (with_id mac source id.0 id.1)
  unfolding with_id
  with_id-Stored mac (none, w) hm h = ground arith
  with_id-Stored mac (some id, w) hm (h, hi) =
      with_key-Stored mac id (malloc_and_strcpy source.device_key w) hm hi (
        subst
          (λ k.
            Copied (λ copy. source.device_key ≡ some copy) k 1
              (malloc_and_strcpy source.device_key w))
          (omega arith) (malloc_and_strcpy-Copied source.device_key w))

  with_mac-Stored :
      (mac : Option Text × World)
      → Copied (λ copy. map toupper (or_empty source.mac_address) ≡ copy) n 1 mac
      → Stored (with_mac source mac.0 mac.1)
  unfolding with_mac
  with_mac-Stored (none, w) h = h
  with_mac-Stored (some mac, w) (h, hm) =
      with_id-Stored mac (malloc_and_strcpy source.device_id w) hm (
        subst
          (λ k.
            Copied (λ copy. source.device_id ≡ some copy) k 1
              (malloc_and_strcpy source.device_id w))
          h (malloc_and_strcpy-Copied source.device_id w))

upper-Copied :
    (text : Option Text) (n : ℕ) (copy : Option Text × World)
    → Copied (λ copy. text ≡ some copy) n 1 copy
    → Copied (λ copy. map toupper (or_empty text) ≡ copy) n 1 (upper_text copy.0, copy.1)
unfolding upper_text
upper-Copied text n (none, w) h = h
upper-Copied text n (some copy, w) (h, same) = (h, rw same refl)

-- IdentityMapConfig_CopyDeep copies the element or takes nothing.
pub copy_deep-Stored :
    (source : IdentityMapConfig) (w : World) → Stored source w.memory (copy_deep source w)
unfolding copy_deep to_upper_case
copy_deep-Stored source w =
    let copy = malloc_and_strcpy source.mac_address w in
    with_mac-Stored source w.memory (upper_text copy.0, copy.1)
      (upper-Copied source.mac_address w.memory copy
        (malloc_and_strcpy-Copied source.mac_address w))

pub to_upper_case-Copied :
    (text : Option Text) (w : World)
    → Copied
        (λ copy. (t : Text) × (text ≡ some t) × (copy ≡ map toupper t))
        w.memory
        1
        (to_upper_case text w)
unfolding to_upper_case malloc_and_strcpy upper_text
to_upper_case-Copied none w = refl
to_upper_case-Copied (some text) w = elim (Bool-cases (w.oracle w.calls)) [
  | inl made ↦ rw made (refl, (text, refl, refl))
  | inr failed ↦ rw failed refl
]
