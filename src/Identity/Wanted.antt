-- ===== src/Identity/Wanted.antt =====
-- The messages that IdentityMap_Receive (modules/identitymap/src/identitymap.c) shall publish.
use azure_iot_gateway_sdk.Base.{◌≡◌, ◌≢◌, ◌⊎◌, some, none, List, map, Among}
use azure_iot_gateway_sdk.Message.Shared.{SharedLib, Text}
use azure_iot_gateway_sdk.Message.Handle.{MessageData}
use azure_iot_gateway_sdk.Identity.Config.{Mapping, toupper}
use azure_iot_gateway_sdk.Identity.Canonical.{IsPairs}
use azure_iot_gateway_sdk.Identity.Maps.{
  gw_mac_address_property, gw_source_property, gw_devicename_property, gw_devicekey_property,
  gw_idmap_module, gw_iothub_module, MapLib,
}
use azure_iot_gateway_sdk.Identity.Changes.{IsToCloud, IsToDevice, KeyDeleteFails}

module _ (s : SharedLib) (lib : MapLib s) (ids macs : List Mapping) (message : MessageData s) where
  -- A message of the cloud for a device of the table: published for the device's MAC address.
  abbrev pub ToDevice : MessageData s → Type 0
  ToDevice new =
      (match : Mapping) × (lib.constmap_get_value message.properties gw_source_property
        ≡ some gw_iothub_module)
      × (lib.constmap_get_value message.properties gw_devicename_property ≡ some match.device_id)
      × Among match ids
      × IsToDevice (KeyDeleteFails s lib) match (lib.constmap_get_value message.properties)
          (lib.constmap_get_value new.properties)

  -- A message of neither the cloud nor an identity map, with the MAC address of a device of the table in
  -- either case and without a device's name or without its key: published for the device's id.
  abbrev pub ToCloud : MessageData s → Type 0
  ToCloud new =
      (source : Text) × (mac : Text) × (match : Mapping) × (lib.constmap_get_value
          message.properties gw_source_property
        ≡ some source)
      × (source ≢ gw_iothub_module)
      × (source ≢ gw_idmap_module)
      × (lib.constmap_get_value message.properties gw_mac_address_property ≡ some mac)
      × IsPairs 5 (map toupper mac)
      × (match.mac_address ≡ map toupper mac)
      × ((lib.constmap_get_value message.properties gw_devicename_property ≡ none)
          ⊎ (lib.constmap_get_value message.properties gw_devicekey_property ≡ none))
      × Among match macs
      × IsToCloud match (lib.constmap_get_value message.properties)
          (lib.constmap_get_value new.properties)

  abbrev pub IsRepublished : MessageData s → Type 0
  IsRepublished new = (new.content ≡ message.content) × (ToDevice new ⊎ ToCloud new)
