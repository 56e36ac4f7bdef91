-- ===== src/Identity/Changes.antt =====
-- What IdentityMap_RepublishD2C and IdentityMap_RepublishC2D (modules/identitymap/src/identitymap.c) make of
-- the properties of a message.
use azure_iot_gateway_sdk.Base.{
  ◌≡◌, ◌≢◌, refl, sym, ap, ◌∙◌, ◌⊎◌, inl, inr, false, Option, some, none,
}
use azure_iot_gateway_sdk.Message.Shared.{SharedLib, Text}
use azure_iot_gateway_sdk.Gateway.State.{strcmp_eq}
use azure_iot_gateway_sdk.Gateway.Search.{strcmp_eq_refl}
use azure_iot_gateway_sdk.Identity.Config.{Mapping}
use azure_iot_gateway_sdk.Identity.Maps.{
  gw_mac_address_property, gw_source_property, gw_devicename_property, gw_devicekey_property,
  gw_idmap_module, MapResult, map_ok, map_keynotfound, map_invalidarg, map_error, MapLib, MapLaws,
  bind_map, deleted, deleted_or_missing, d2c_properties, c2d_properties,
}

pub differ : (a b : Text) → strcmp_eq a b ≡ false → a ≢ b
differ a b h same = cc (h, ap (strcmp_eq a) same, strcmp_eq_refl a)

pub name_key : gw_devicename_property ≢ gw_devicekey_property
unfolding strcmp_eq
name_key = differ gw_devicename_property gw_devicekey_property refl

pub name_source : gw_devicename_property ≢ gw_source_property
unfolding strcmp_eq
name_source = differ gw_devicename_property gw_source_property refl

pub name_mac : gw_devicename_property ≢ gw_mac_address_property
unfolding strcmp_eq
name_mac = differ gw_devicename_property gw_mac_address_property refl

pub key_source : gw_devicekey_property ≢ gw_source_property
unfolding strcmp_eq
key_source = differ gw_devicekey_property gw_source_property refl

pub key_mac : gw_devicekey_property ≢ gw_mac_address_property
unfolding strcmp_eq
key_mac = differ gw_devicekey_property gw_mac_address_property refl

pub source_mac : gw_source_property ≢ gw_mac_address_property
unfolding strcmp_eq
source_mac = differ gw_source_property gw_mac_address_property refl

-- The other properties of a message.
abbrev pub IsOther : Text → Type 0
IsOther k =
    (k ≢ gw_mac_address_property)
    × (k ≢ gw_source_property)
    × (k ≢ gw_devicename_property)
    × (k ≢ gw_devicekey_property)

-- A message to the cloud: the device's id and key, and no MAC address.
abbrev pub IsToCloud : Mapping → (Text → Option Text) → (Text → Option Text) → Type 0
IsToCloud match old new =
    (new gw_devicename_property ≡ some match.device_id)
    × (new gw_devicekey_property ≡ some match.device_key)
    × (new gw_source_property ≡ some gw_idmap_module)
    × (new gw_mac_address_property ≡ none)
    × ((k : Text) → IsOther k → new k ≡ old k)

-- A message to the device: its MAC address, no id, and no key, unless the key could not be deleted
-- for another reason than MAP_INVALIDARG: then the key is left in.
abbrev pub IsToDevice :
    (DeleteFails : Type 0) → Mapping → (Text → Option Text) → (Text → Option Text) → Type 0
IsToDevice DeleteFails match old new =
    (new gw_mac_address_property ≡ some match.mac_address)
    × (new gw_source_property ≡ some gw_idmap_module)
    × (new gw_devicename_property ≡ none)
    × ((new gw_devicekey_property ≡ none)
        ⊎ (DeleteFails × (new gw_devicekey_property ≡ old gw_devicekey_property)))
    × ((k : Text) → IsOther k → new k ≡ old k)

-- Map_Delete of a key fails, and neither with MAP_KEYNOTFOUND nor with MAP_INVALIDARG.
abbrev pub KeyDeleteFails : (s : SharedLib) → MapLib s → Type 0
KeyDeleteFails s lib = (m : s.MapHandle) × (lib.map_delete m gw_devicekey_property ≡ map_error)

module _ (s : SharedLib) (lib : MapLib s) (laws : MapLaws s lib) where
  open lib use {map_add_or_update, map_delete}
  open laws use {
    value, value-add_or_update, value-add_or_update_other, value-delete, value-delete_other,
    value-delete_missing,
  }

  bind_map-some :
      (o : Option s.MapHandle) (f : s.MapHandle → Option s.MapHandle) (m' : s.MapHandle)
      → bind_map s lib o f ≡ some m'
      → (m : s.MapHandle) × (o ≡ some m) × (f m ≡ some m')
  bind_map-some none f m' h = absurd cc
  bind_map-some (some m) f m' h = (m, refl, h)

  deleted-some :
      (r : MapResult s.MapHandle) (m' : s.MapHandle) → deleted s lib r ≡ some m' → r ≡ map_ok m'
  unfolding deleted
  deleted-some (map_ok m) m' h = ap map_ok (cc h)
  deleted-some map_keynotfound m' h = absurd cc
  deleted-some map_invalidarg m' h = absurd cc
  deleted-some map_error m' h = absurd cc

  pub d2c_properties-IsToCloud :
      (match : Mapping) (m m' : s.MapHandle)
      → d2c_properties s lib match m ≡ some m'
      → IsToCloud match (value m) (value m')
  unfolding d2c_properties
  d2c_properties-IsToCloud match m m' h =
      let (m1, h1, r1) =
        bind_map-some (map_add_or_update m gw_devicename_property match.device_id) _ m' h in
      let (m2, h2, r2) =
        bind_map-some (map_add_or_update m1 gw_devicekey_property match.device_key) _ m' r1 in
      let (m3, h3, r3) =
        bind_map-some (map_add_or_update m2 gw_source_property gw_idmap_module) _ m' r2 in
      let h4 = deleted-some (map_delete m3 gw_mac_address_property) m' r3 in
      let one = λ (k : Text) (ne : k ≢ gw_devicename_property).
        value-add_or_update_other m m1 gw_devicename_property match.device_id k h1 ne in
      let two = λ (k : Text) (ne : k ≢ gw_devicekey_property).
        value-add_or_update_other m1 m2 gw_devicekey_property match.device_key k h2 ne in
      let three = λ (k : Text) (ne : k ≢ gw_source_property).
        value-add_or_update_other m2 m3 gw_source_property gw_idmap_module k h3 ne in
      let four = λ (k : Text) (ne : k ≢ gw_mac_address_property).
        value-delete_other m3 m' gw_mac_address_property k h4 ne in
      (
        four _ name_mac ∙ three _ name_source ∙ two _ name_key ∙ value-add_or_update m m1 _ _ h1,
        four _ key_mac ∙ three _ key_source ∙ value-add_or_update m1 m2 _ _ h2,
        four _ source_mac ∙ value-add_or_update m2 m3 _ _ h3,
        value-delete m3 m' _ h4,
        λ k other. four k other.0 ∙ three k other.1 ∙ two k other.3 ∙ one k other.2,
      )

  deleted_or_missing-some :
      (m m' : s.MapHandle) (r : MapResult s.MapHandle)
      → map_delete m gw_devicekey_property ≡ r
      → deleted_or_missing s lib m r ≡ some m'
      → ((value m' gw_devicekey_property ≡ none)
          ⊎ (KeyDeleteFails s lib
              × (value m' gw_devicekey_property ≡ value m gw_devicekey_property)))
        × ((k : Text) → k ≢ gw_devicekey_property → value m' k ≡ value m k)
  unfolding deleted_or_missing
  deleted_or_missing-some m m' (map_ok m'') e h =
      let gone : map_delete m gw_devicekey_property ≡ map_ok m' = e ∙ ap map_ok (cc h) in
      (
        inl (value-delete m m' gw_devicekey_property gone),
        λ k ne. value-delete_other m m' gw_devicekey_property k gone ne,
      )
  deleted_or_missing-some m m' map_keynotfound e h =
      let same : m ≡ m' = cc h in
      (
        inl (
            ap (λ x. value x gw_devicekey_property) (sym same)
            ∙ value-delete_missing m gw_devicekey_property e),
        λ k ne. ap (λ x. value x k) (sym same),
      )
  deleted_or_missing-some m m' map_invalidarg e h = absurd cc
  deleted_or_missing-some m m' map_error e h =
      let same : m ≡ m' = cc h in
      (
        inr ((m, e), ap (λ x. value x gw_devicekey_property) (sym same)),
        λ k ne. ap (λ x. value x k) (sym same),
      )

  pub c2d_properties-IsToDevice :
      (match : Mapping) (m m' : s.MapHandle)
      → c2d_properties s lib match m ≡ some m'
      → IsToDevice (KeyDeleteFails s lib) match (value m) (value m')
  unfolding c2d_properties
  c2d_properties-IsToDevice match m m' h =
      let (m1, h1, r1) =
        bind_map-some (map_add_or_update m gw_mac_address_property match.mac_address) _ m' h in
      let (m2, h2, r2) =
        bind_map-some (map_add_or_update m1 gw_source_property gw_idmap_module) _ m' r1 in
      let (m3, h3, r3) =
        bind_map-some (deleted s lib (map_delete m2 gw_devicename_property)) _ m' r2 in
      let h3' = deleted-some (map_delete m2 gw_devicename_property) m3 h3 in
      let (gone, four) =
        deleted_or_missing-some m3 m' (map_delete m3 gw_devicekey_property) refl r3 in
      let one = λ (k : Text) (ne : k ≢ gw_mac_address_property).
        value-add_or_update_other m m1 gw_mac_address_property match.mac_address k h1 ne in
      let two = λ (k : Text) (ne : k ≢ gw_source_property).
        value-add_or_update_other m1 m2 gw_source_property gw_idmap_module k h2 ne in
      let three = λ (k : Text) (ne : k ≢ gw_devicename_property).
        value-delete_other m2 m3 gw_devicename_property k h3' ne in
      (
        four _ (λ e. key_mac (sym e))
            ∙ three _ (λ e. name_mac (sym e))
            ∙ two _ (λ e. source_mac (sym e))
            ∙ value-add_or_update m m1 _ _ h1,
        four _ (λ e. key_source (sym e))
            ∙ three _ (λ e. name_source (sym e))
            ∙ value-add_or_update m1 m2 _ _ h2,
        four _ name_key ∙ value-delete m2 m3 _ h3',
        elim gone [
          | inl none_left ↦ inl none_left
          | inr (fails, left) ↦
              inr (fails, left ∙ three _ (λ e. name_key (sym e)) ∙ two _ key_source ∙ one _ key_mac)
        ],
        λ k other. four k other.3 ∙ three k other.2 ∙ two k other.1 ∙ one k other.0,
      )
