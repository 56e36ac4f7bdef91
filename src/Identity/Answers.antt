-- ===== src/Identity/Answers.antt =====
-- IdentityMap_Receive (modules/identitymap/src/identitymap.c) publishes what it shall, where nothing fails.
use azure_iot_gateway_sdk.Base.{
  ◌+◌, ◌≡◌, ◌≢◌, ◌⊎◌, refl, sym, ◌∙◌, inl, inr, true, false, Option, some, none, List, [], map,
  Among, Bool-cases,
}
use azure_iot_gateway_sdk.Base.Outcome.{Outcome}
use azure_iot_gateway_sdk.Message.Shared.{SharedLib, Ledger, Text, take_constmap}
use azure_iot_gateway_sdk.Message.Handle.{MessageData, get_properties}
use azure_iot_gateway_sdk.Message.References.{CanClone}
use azure_iot_gateway_sdk.Broker.World.{World}
use azure_iot_gateway_sdk.Broker.Publish.{Published}
use azure_iot_gateway_sdk.Gateway.State.{strcmp_eq}
use azure_iot_gateway_sdk.Gateway.Search.{strcmp_eq_refl, strcmp_eq→eq}
use azure_iot_gateway_sdk.Identity.Config.{
  Mapping, toupper, malloc_and_strcpy, upper_text, to_upper_case,
}
use azure_iot_gateway_sdk.Identity.Tables.{mac_compare, id_compare, IsSorted, TableLib, TableLaws}
use azure_iot_gateway_sdk.Identity.Create.{IdentityMapData}
use azure_iot_gateway_sdk.Identity.Canonical.{IsPairs, is_canonical_mac_iff}
use azure_iot_gateway_sdk.Identity.Maps.{
  gw_mac_address_property, gw_source_property, gw_devicename_property, gw_devicekey_property,
  gw_idmap_module, gw_iothub_module, MapLib, MapLaws, d2c_properties, c2d_properties,
}
use azure_iot_gateway_sdk.Identity.Receive.{
  Held, determine_message_direction, get_value, republish_match, receive_c2d, has_both, find_mac,
  free_text, receive_d2c, receive_direction, destroy_properties, receive_message,
  identity_map_receive,
}
use azure_iot_gateway_sdk.Identity.Publishing.{Publishes}
use azure_iot_gateway_sdk.Identity.Capable.{
  NeverFails, d2c_properties-ne-none, c2d_properties-ne-none,
}
use azure_iot_gateway_sdk.Identity.Delivers.{
  Delivers, Delivers-after, bsearch-ne-none, republish-Delivers,
}

module _ (s : SharedLib) (lib : MapLib s) (table : List Mapping) (message : MessageData s) where
  -- A message of the cloud that names a device of the table.
  abbrev pub IsForDevice : Type 0
  IsForDevice =
      (match : Mapping) × (lib.constmap_get_value message.properties gw_source_property
        ≡ some gw_iothub_module)
      × (lib.constmap_get_value message.properties gw_devicename_property ≡ some match.device_id)
      × Among match table

  -- A message of another source that has the MAC address of a device of the table, in either case, and not
  -- both a device's name and its key.
  abbrev pub IsForCloud : Type 0
  IsForCloud =
      (source : Text) × (mac : Text) × (match : Mapping) × (lib.constmap_get_value
          message.properties gw_source_property
        ≡ some source)
      × (source ≢ gw_iothub_module)
      × (source ≢ gw_idmap_module)
      × (lib.constmap_get_value message.properties gw_mac_address_property ≡ some mac)
      × IsPairs 5 (map toupper mac)
      × (match.mac_address ≡ map toupper mac)
      × ((lib.constmap_get_value message.properties gw_devicename_property ≡ none)
          ⊎ (lib.constmap_get_value message.properties gw_devicekey_property ≡ none))
      × Among match table

module _ (s : SharedLib) (lib : MapLib s) (laws : MapLaws s lib) (memory : NeverFails s lib laws)
    (clones : CanClone s)
    (publish : Option (MessageData s) → Ledger → World → Outcome (Published s))
    (broker : Publishes s publish) (t : TableLib) (table_laws : TableLaws t) (d : IdentityMapData)
    (message : MessageData s) where
  abbrev value_of : Text → Option Text
  value_of = lib.constmap_get_value message.properties

  republish_match-Delivers :
      (change : Mapping → s.MapHandle → Option s.MapHandle) (o : Option Mapping) (h : Held)
      → o ≢ none
      → ((match : Mapping) (m : s.MapHandle)
          → lib.constmap_clone_writeable message.properties ≡ some m
          → change match m ≢ none)
      → Delivers s (republish_match s lib publish change message o h)
  unfolding republish_match
  republish_match-Delivers change none h ne changes = absurd (ne refl)
  republish_match-Delivers change (some match) h ne changes =
      republish-Delivers s lib laws memory clones publish broker (change match) message h
        (changes match)

  -- A property of the message is one of its writeable copy.
  held :
      (m : s.MapHandle) (k v : Text)
      → lib.constmap_clone_writeable message.properties ≡ some m
      → value_of k ≡ some v
      → laws.value m k ≢ none
  held m k v cloned there gone =
      cc (sym (laws.value-clone_writeable message.properties m k cloned) ∙ gone, there)

  receive_c2d-Delivers :
      (match : Mapping) (h : Held)
      → value_of gw_devicename_property ≡ some match.device_id
      → IsSorted id_compare d.dev_id_to_mac_array
      → Among match d.dev_id_to_mac_array
      → Delivers s (receive_c2d s lib publish t d message (some match.device_id) h)
  unfolding receive_c2d
  receive_c2d-Delivers match h named sorted among =
      let key : Mapping = record {
        mac_address = [];
        device_id = match.device_id;
        device_key = [];
      } in
      republish_match-Delivers (c2d_properties s lib)
        (t.bsearch key d.dev_id_to_mac_array id_compare) h
        (bsearch-ne-none t table_laws (λ m. m.device_id) key match d.dev_id_to_mac_array sorted
          among refl)
        (λ found m cloned.
          c2d_properties-ne-none s lib laws memory found m
            (held m gw_devicename_property match.device_id cloned named))

  has_both-false :
      (name key : Option Text)
      → (name ≡ none) ⊎ (key ≡ none)
      → has_both s lib publish t d name key ≡ false
  unfolding has_both
  has_both-false none key h = refl
  has_both-false (some name) none h = refl
  has_both-false (some name) (some key) (inl h) = absurd cc
  has_both-false (some name) (some key) (inr h) = absurd cc

  find_mac-Delivers :
      (mac : Text) (match : Mapping) (h : Held)
      → value_of gw_mac_address_property ≡ some mac
      → IsPairs 5 (map toupper mac)
      → match.mac_address ≡ map toupper mac
      → IsSorted mac_compare d.mac_to_dev_id_array
      → Among match d.mac_to_dev_id_array
      → Delivers s (find_mac s lib publish t d false message (map toupper mac) h)
  unfolding find_mac
  find_mac-Delivers mac match h addressed canonical same sorted among =
      let key : Mapping = record {
        mac_address = map toupper mac;
        device_id = [];
        device_key = [];
      } in
      rw ((is_canonical_mac_iff (map toupper mac)).1 canonical) (
        republish_match-Delivers (d2c_properties s lib)
          (t.bsearch key d.mac_to_dev_id_array mac_compare) h
          (bsearch-ne-none t table_laws (λ m. m.mac_address) key match d.mac_to_dev_id_array sorted
            among (sym same))
          (λ found m cloned.
            d2c_properties-ne-none s lib laws memory found m
              (held m gw_mac_address_property mac cloned addressed)))

  receive_d2c-Delivers :
      (mac : Text) (match : Mapping) (h : Held)
      → value_of gw_mac_address_property ≡ some mac
      → IsPairs 5 (map toupper mac)
      → match.mac_address ≡ map toupper mac
      → (value_of gw_devicename_property ≡ none) ⊎ (value_of gw_devicekey_property ≡ none)
      → IsSorted mac_compare d.mac_to_dev_id_array
      → Among match d.mac_to_dev_id_array
      → Delivers s (
          receive_d2c s lib publish t d message
            (some message.properties)
            (some (map toupper mac))
            h)
  unfolding receive_d2c get_value
  receive_d2c-Delivers mac match h addressed canonical same lacking sorted among =
      rw (has_both-false (value_of gw_devicename_property) (value_of gw_devicekey_property) lacking)
        (Delivers-after s (free_text s lib publish t d)
          (find_mac s lib publish t d false message (map toupper mac) h)
          (find_mac-Delivers mac match h addressed canonical same sorted among))

  upper_made :
      (mac : Text) (w : World)
      → w.oracle w.calls ≡ true
      → to_upper_case (some mac) w
        ≡ (some (map toupper mac), record w { calls = w.calls + 1; memory = w.memory + 1 })
  unfolding to_upper_case malloc_and_strcpy upper_text
  upper_made mac w made = rw made refl

  missed : (a b : Text) → a ≢ b → strcmp_eq a b ≡ false
  missed a b ne = elim (Bool-cases (strcmp_eq a b)) [
    | inl hit ↦ absurd (ne (strcmp_eq→eq a b hit))
    | inr miss ↦ miss
  ]

  receive_direction-Delivers :
      (source : Text) (h : Held)
      → value_of gw_source_property ≡ some source
      → IsSorted mac_compare d.mac_to_dev_id_array
      → IsSorted id_compare d.dev_id_to_mac_array
      → h.world.oracle h.world.calls ≡ true
      → IsForDevice s lib d.dev_id_to_mac_array message
        ⊎ IsForCloud s lib d.mac_to_dev_id_array message
      → let direction = determine_message_direction (some source) in
        Delivers s (
          receive_direction s lib publish t d direction.0 direction.1 message
            (some message.properties)
            h)
  unfolding determine_message_direction receive_direction get_value
  receive_direction-Delivers source h sent macs ids made (inl (match, cloud, named, among)) =
      let same : source ≡ gw_iothub_module = cc (sym sent ∙ cloud) in
      rw (same, strcmp_eq_refl gw_iothub_module, named)
        (receive_c2d-Delivers match h named ids among)
  receive_direction-Delivers source h sent macs ids made
        (inr (
          source', mac, match, sent', not_cloud, not_mapping, addressed, canonical, same_mac,
          lacking, among,
        )) =
      let same : source ≡ source' = cc (sym sent ∙ sent') in
      rw
        (
          same,
          missed source' gw_iothub_module not_cloud,
          missed source' gw_idmap_module not_mapping,
        )
        (rw (addressed, upper_made mac h.world made)
          (receive_d2c-Delivers mac match
            (record h {
              world = record h.world { calls = h.world.calls + 1; memory = h.world.memory + 1 };
            })
            addressed canonical same_mac lacking macs among))

  source_of :
      IsForDevice s lib d.dev_id_to_mac_array message
        ⊎ IsForCloud s lib d.mac_to_dev_id_array message
      → (source : Text) × (value_of gw_source_property ≡ some source)
  source_of (inl for_device) = (gw_iothub_module, for_device.1)
  source_of (inr for_cloud) = (for_cloud.0, for_cloud.3)

  -- Where no allocation and no map call fails, IdentityMap_Receive publishes a message for every message of the
  -- cloud that names a device of the table, and for every message of another source, not an identity map,
  -- that has the MAC address of a device of the table, in either case, and lacks the device's name or its
  -- key. The module's tables are sorted, the library's clones succeed and its maps and searches are as
  -- documented, and Broker_Publish returns.
  pub identity_map_receive-Delivers :
      (h : Held)
      → IsSorted mac_compare d.mac_to_dev_id_array
      → IsSorted id_compare d.dev_id_to_mac_array
      → h.world.oracle h.world.calls ≡ true
      → IsForDevice s lib d.dev_id_to_mac_array message
        ⊎ IsForCloud s lib d.mac_to_dev_id_array message
      → Delivers s (identity_map_receive s lib publish t (some d) (some message) h)
  unfolding identity_map_receive receive_message get_properties get_value
  identity_map_receive-Delivers h macs ids made wanted =
      let h' : Held = record h { ledger = take_constmap h.ledger } in
      let (source, sent) = source_of wanted in
      let direction = determine_message_direction (some source) in
      rw (clones.constmap_clone_same message.properties, sent)
        (Delivers-after s (destroy_properties s lib publish t d (some message.properties))
          (receive_direction s lib publish t d direction.0 direction.1 message
            (some message.properties) h')
          (receive_direction-Delivers source h' sent macs ids made wanted))
