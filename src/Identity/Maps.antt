-- ===== src/Identity/Maps.antt =====
-- The maps of azure-c-shared-utility as modules/identitymap/src/identitymap.c uses them, and the changes
-- that IdentityMap_RepublishD2C and IdentityMap_RepublishC2D make to the properties of a message.
use azure_iot_gateway_sdk.Base.{◌≡◌, ◌≢◌, Option, some, none, [], ◌∷◌}
use azure_iot_gateway_sdk.Message.Shared.{SharedLib, Text}
use azure_iot_gateway_sdk.Identity.Config.{Mapping}

-- "macAddress", "source", "deviceName", "deviceKey", "mapping" and "iothub".
abbrev pub gw_mac_address_property : Text
gw_mac_address_property = b'm' ∷ b'a' ∷ b'c' ∷ b'A' ∷ b'd' ∷ b'd' ∷ b'r' ∷ b'e' ∷ b's' ∷ b's' ∷ []

abbrev pub gw_source_property : Text
gw_source_property = b's' ∷ b'o' ∷ b'u' ∷ b'r' ∷ b'c' ∷ b'e' ∷ []

abbrev pub gw_devicename_property : Text
gw_devicename_property = b'd' ∷ b'e' ∷ b'v' ∷ b'i' ∷ b'c' ∷ b'e' ∷ b'N' ∷ b'a' ∷ b'm' ∷ b'e' ∷ []

abbrev pub gw_devicekey_property : Text
gw_devicekey_property = b'd' ∷ b'e' ∷ b'v' ∷ b'i' ∷ b'c' ∷ b'e' ∷ b'K' ∷ b'e' ∷ b'y' ∷ []

abbrev pub gw_idmap_module : Text
gw_idmap_module = b'm' ∷ b'a' ∷ b'p' ∷ b'p' ∷ b'i' ∷ b'n' ∷ b'g' ∷ []

abbrev pub gw_iothub_module : Text
gw_iothub_module = b'i' ∷ b'o' ∷ b't' ∷ b'h' ∷ b'u' ∷ b'b' ∷ []

-- MAP_OK with the map, MAP_KEYNOTFOUND, MAP_INVALIDARG, or another error.
pub data MapResult (A : Type 0) : Type 0 where
  map_ok : A → MapResult A
  map_keynotfound : MapResult A
  map_invalidarg : MapResult A
  map_error : MapResult A

-- What the module calls in azure-c-shared-utility beside what message.c calls. `none` is a null pointer
-- or a result that is not MAP_OK.
pub record MapLib (s : SharedLib) : Type 0 where
  pub constmap_get_value : s.ConstMap → Text → Option Text
  pub constmap_clone_writeable : s.ConstMap → Option s.MapHandle
  pub map_add_or_update : s.MapHandle → Text → Text → Option s.MapHandle
  pub map_delete : s.MapHandle → Text → MapResult s.MapHandle

module _ (s : SharedLib) (lib : MapLib s) where
  open lib use {constmap_get_value, constmap_clone_writeable, map_add_or_update, map_delete}

  -- What their documentation says: `value` is what a map holds for a key.
  pub record MapLaws : Type 0 where
    pub value : s.MapHandle → Text → Option Text
    pub value-clone_writeable :
        (c : s.ConstMap) (m : s.MapHandle) (k : Text)
        → constmap_clone_writeable c ≡ some m
        → value m k ≡ constmap_get_value c k
    pub value-add_or_update :
        (m m' : s.MapHandle) (k v : Text) → map_add_or_update m k v ≡ some m' → value m' k ≡ some v
    pub value-add_or_update_other :
        (m m' : s.MapHandle) (k v other : Text)
        → map_add_or_update m k v ≡ some m'
        → other ≢ k
        → value m' other ≡ value m other
    pub value-delete :
        (m m' : s.MapHandle) (k : Text) → map_delete m k ≡ map_ok m' → value m' k ≡ none
    pub value-delete_other :
        (m m' : s.MapHandle) (k other : Text)
        → map_delete m k ≡ map_ok m'
        → other ≢ k
        → value m' other ≡ value m other
    pub value-delete_missing :
        (m : s.MapHandle) (k : Text) → map_delete m k ≡ map_keynotfound → value m k ≡ none
    pub value-constmap_create :
        (m : s.MapHandle) (c : s.ConstMap) (k : Text)
        → s.constmap_create (some m) ≡ some c
        → constmap_get_value c k ≡ value m k

  abbrev pub bind_map : Option s.MapHandle → (s.MapHandle → Option s.MapHandle) → Option s.MapHandle
  bind_map none f = none
  bind_map (some m) f = f m

  unfoldable pub deleted : MapResult s.MapHandle → Option s.MapHandle
  deleted (map_ok m) = some m
  deleted map_keynotfound = none
  deleted map_invalidarg = none
  deleted map_error = none

  -- `m` is the map before the call, which an error leaves as it is. Only MAP_INVALIDARG is refused.
  unfoldable pub deleted_or_missing : s.MapHandle → MapResult s.MapHandle → Option s.MapHandle
  deleted_or_missing m (map_ok m') = some m'
  deleted_or_missing m map_keynotfound = some m
  deleted_or_missing m map_invalidarg = none
  deleted_or_missing m map_error = some m

  -- The new properties, unless a call fails.
  unfoldable pub d2c_properties : Mapping → s.MapHandle → Option s.MapHandle
  d2c_properties match m =
      bind_map (map_add_or_update m gw_devicename_property match.device_id) λ m1.
        bind_map (map_add_or_update m1 gw_devicekey_property match.device_key) λ m2.
          bind_map (map_add_or_update m2 gw_source_property gw_idmap_module)
            λ m3. deleted (map_delete m3 gw_mac_address_property)

  unfoldable pub c2d_properties : Mapping → s.MapHandle → Option s.MapHandle
  c2d_properties match m =
      bind_map (map_add_or_update m gw_mac_address_property match.mac_address) λ m1.
        bind_map (map_add_or_update m1 gw_source_property gw_idmap_module) λ m2.
          bind_map (deleted (map_delete m2 gw_devicename_property))
            λ m3. deleted_or_missing m3 (map_delete m3 gw_devicekey_property)
