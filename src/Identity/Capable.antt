-- ===== src/Identity/Capable.antt =====
-- The changes of modules/identitymap/src/identitymap.c to properties do not fail where the map calls do not.
use azure_iot_gateway_sdk.Base.{◌≡◌, ◌≢◌, refl, sym, ◌∙◌, true, Option, some, none}
use azure_iot_gateway_sdk.Message.Shared.{SharedLib, Text}
use azure_iot_gateway_sdk.Identity.Config.{Mapping}
use azure_iot_gateway_sdk.Identity.Maps.{
  gw_mac_address_property, gw_source_property, gw_devicename_property, gw_devicekey_property,
  gw_idmap_module, MapResult, map_ok, map_keynotfound, map_invalidarg, map_error, MapLib, MapLaws,
  bind_map, deleted, deleted_or_missing, d2c_properties, c2d_properties,
}
use azure_iot_gateway_sdk.Identity.Changes.{name_source, name_mac, key_mac, source_mac}

-- There is memory for every call, and a map gives up every key that it holds.
pub record NeverFails (s : SharedLib) (lib : MapLib s) (laws : MapLaws s lib) : Type 0 where
  pub malloc_message_true : s.malloc_message ≡ true
  pub constmap_create-ne-none : (m : s.MapHandle) → s.constmap_create (some m) ≢ none
  pub clone_writeable-ne-none : (c : s.ConstMap) → lib.constmap_clone_writeable c ≢ none
  pub add_or_update-ne-none : (m : s.MapHandle) (k v : Text) → lib.map_add_or_update m k v ≢ none
  pub delete_held :
      (m : s.MapHandle) (k : Text)
      → laws.value m k ≢ none
      → (m' : s.MapHandle) × (lib.map_delete m k ≡ map_ok m')
  pub delete-ne-invalidarg : (m : s.MapHandle) (k : Text) → lib.map_delete m k ≢ map_invalidarg

module _ (s : SharedLib) (lib : MapLib s) (laws : MapLaws s lib)
    (memory : NeverFails s lib laws) where
  bind_map-ne-none :
      (o : Option s.MapHandle) (f : s.MapHandle → Option s.MapHandle)
      → o ≢ none
      → ((m : s.MapHandle) → o ≡ some m → f m ≢ none)
      → bind_map s lib o f ≢ none
  bind_map-ne-none none f ne k = absurd (ne refl)
  bind_map-ne-none (some m) f ne k = k m refl

  deleted-ne-none :
      (m : s.MapHandle) (k : Text)
      → laws.value m k ≢ none
      → deleted s lib (lib.map_delete m k) ≢ none
  unfolding deleted
  deleted-ne-none m k held = let (m', e) = memory.delete_held m k held in rw e (λ h. cc)

  -- A map with a MAC address can be changed for the cloud, one with a device's name for the device.
  pub d2c_properties-ne-none :
      (match : Mapping) (m : s.MapHandle)
      → laws.value m gw_mac_address_property ≢ none
      → d2c_properties s lib match m ≢ none
  unfolding d2c_properties
  d2c_properties-ne-none match m held =
      bind_map-ne-none _ _ (memory.add_or_update-ne-none m gw_devicename_property match.device_id)
        λ m1 h1.
          bind_map-ne-none _ _
            (memory.add_or_update-ne-none m1 gw_devicekey_property match.device_key)
            λ m2 h2.
              bind_map-ne-none _ _
                (memory.add_or_update-ne-none m2 gw_source_property gw_idmap_module)
                λ m3 h3. deleted-ne-none m3 gw_mac_address_property (λ gone. held (
                  sym (
                    laws.value-add_or_update_other m m1 gw_devicename_property match.device_id
                      gw_mac_address_property h1 (λ e. name_mac (sym e)))
                  ∙ sym (
                      laws.value-add_or_update_other m1 m2 gw_devicekey_property match.device_key
                        gw_mac_address_property h2 (λ e. key_mac (sym e)))
                  ∙ sym (
                      laws.value-add_or_update_other m2 m3 gw_source_property gw_idmap_module
                        gw_mac_address_property h3 (λ e. source_mac (sym e)))
                  ∙ gone))

  deleted_or_missing-ne-none :
      (m : s.MapHandle) (r : MapResult s.MapHandle)
      → r ≢ map_invalidarg
      → deleted_or_missing s lib m r ≢ none
  unfolding deleted_or_missing
  deleted_or_missing-ne-none m (map_ok m') ne h = cc
  deleted_or_missing-ne-none m map_keynotfound ne h = cc
  deleted_or_missing-ne-none m map_invalidarg ne h = ne refl
  deleted_or_missing-ne-none m map_error ne h = cc

  pub c2d_properties-ne-none :
      (match : Mapping) (m : s.MapHandle)
      → laws.value m gw_devicename_property ≢ none
      → c2d_properties s lib match m ≢ none
  unfolding c2d_properties
  c2d_properties-ne-none match m held =
      bind_map-ne-none _ _
        (memory.add_or_update-ne-none m gw_mac_address_property match.mac_address)
        λ m1 h1.
          bind_map-ne-none _ _ (memory.add_or_update-ne-none m1 gw_source_property gw_idmap_module)
            λ m2 h2.
              bind_map-ne-none _ _
                (deleted-ne-none m2 gw_devicename_property (λ gone. held (
                  sym (
                    laws.value-add_or_update_other m m1 gw_mac_address_property match.mac_address
                      gw_devicename_property h1 name_mac)
                  ∙ sym (
                      laws.value-add_or_update_other m1 m2 gw_source_property gw_idmap_module
                        gw_devicename_property h2 name_source)
                  ∙ gone)))
                λ m3 h3.
                  deleted_or_missing-ne-none m3 (lib.map_delete m3 gw_devicekey_property)
                    (memory.delete-ne-invalidarg m3 gw_devicekey_property)
