-- ===== src/Identity/Received.antt =====
-- IdentityMap_Receive (modules/identitymap/src/identitymap.c) as a whole.
use azure_iot_gateway_sdk.Base.{◌≡◌, refl, ap, ◌∙◌, subst, inl, inr, Option, some, none, Bool-cases}
use azure_iot_gateway_sdk.Base.Outcome.{Outcome}
use azure_iot_gateway_sdk.Message.Shared.{SharedLib, Ledger, Text, take_constmap, free_constmap}
use azure_iot_gateway_sdk.Message.Handle.{MessageData, get_properties}
use azure_iot_gateway_sdk.Message.References.{CanClone}
use azure_iot_gateway_sdk.Broker.World.{World}
use azure_iot_gateway_sdk.Broker.Publish.{Published}
use azure_iot_gateway_sdk.Gateway.State.{strcmp_eq}
use azure_iot_gateway_sdk.Gateway.Search.{strcmp_eq→eq}
use azure_iot_gateway_sdk.Identity.Config.{to_upper_case}
use azure_iot_gateway_sdk.Identity.Tables.{TableLib, TableLaws}
use azure_iot_gateway_sdk.Identity.Create.{IdentityMapData}
use azure_iot_gateway_sdk.Identity.Creation.{to_upper_case-Copied}
use azure_iot_gateway_sdk.Identity.Maps.{
  gw_mac_address_property, gw_source_property, gw_devicename_property, gw_idmap_module,
  gw_iothub_module, MapLib, MapLaws,
}
use azure_iot_gateway_sdk.Identity.Receive.{
  Held, in_ledger, after, determine_message_direction, get_value, receive_direction,
  destroy_properties, receive_message, identity_map_receive,
}
use azure_iot_gateway_sdk.Identity.Changes.{differ}
use azure_iot_gateway_sdk.Identity.Publishing.{
  Publishes, Returns, Returns-after, free_constmap-take_constmap,
}
use azure_iot_gateway_sdk.Identity.Wanted.{IsRepublished}
use azure_iot_gateway_sdk.Identity.Receiving.{receive_c2d-Returns, receive_d2c-Returns}

module _ (s : SharedLib) (lib : MapLib s) (map_laws : MapLaws s lib) (t : TableLib)
    (laws : TableLaws t) (clones : CanClone s)
    (publish : Option (MessageData s) → Ledger → World → Outcome (Published s))
    (broker : Publishes s publish) (d : IdentityMapData) (message : MessageData s) where
  abbrev Republished : MessageData s → Type 0
  Republished = IsRepublished s lib d.dev_id_to_mac_array d.mac_to_dev_id_array message

  receive_direction-Returns :
      (source : Option Text) (h : Held)
      → lib.constmap_get_value message.properties gw_source_property ≡ source
      → let direction = determine_message_direction source in
        Returns s Republished h.ledger h.world.memory (
          receive_direction s lib publish t d direction.0 direction.1 message
            (some message.properties)
            h)
  unfolding determine_message_direction receive_direction get_value
  receive_direction-Returns none h sent = (refl, refl)
  receive_direction-Returns (some source) h sent =
      elim (Bool-cases (strcmp_eq source gw_iothub_module)) [
        | inl cloud ↦ rw cloud (
            receive_c2d-Returns s lib map_laws t laws clones publish broker d message
              (lib.constmap_get_value message.properties gw_devicename_property) h
              (sent ∙ ap some (strcmp_eq→eq source gw_iothub_module cloud)) refl)
        | inr not_cloud ↦ elim (Bool-cases (strcmp_eq source gw_idmap_module)) [
          | inl mapping ↦ rw (not_cloud, mapping) (refl, refl)
          | inr not_mapping ↦
              let mac = lib.constmap_get_value message.properties gw_mac_address_property in
              rw (not_cloud, not_mapping)
                (receive_d2c-Returns s lib map_laws t laws clones publish broker d message source
                  (to_upper_case mac h.world) h.ledger h.world.memory sent
                  (differ source gw_iothub_module not_cloud)
                  (differ source gw_idmap_module not_mapping) (to_upper_case-Copied mac h.world))
        ]
      ]

  -- IdentityMap_Receive returns for every message, whichever allocations and map calls fail, and gives back
  -- all it took: what the message library holds and the memory are as before. It publishes at most one
  -- message, and only such a message: with the content of the one received, for a message of the cloud
  -- with the MAC address of the device that it names, and for another message that is not of an identity
  -- map with the id and key of the device whose MAC address it has, in either case, and in both cases
  -- marked as of an identity map and with the other properties unchanged. This is for a library whose clones
  -- succeed and whose maps and searches are as documented, and a Broker_Publish that returns.
  pub identity_map_receive-Returns :
      (h : Held)
      → Returns s
          (IsRepublished s lib d.dev_id_to_mac_array d.mac_to_dev_id_array message)
          h.ledger
          h.world.memory
          (identity_map_receive s lib publish t (some d) (some message) h)
  unfolding identity_map_receive receive_message get_properties get_value destroy_properties
  identity_map_receive-Returns h =
      let h' : Held = record h { ledger = take_constmap h.ledger } in
      let source = lib.constmap_get_value message.properties gw_source_property in
      let direction = determine_message_direction source in
      rw (clones.constmap_clone_same message.properties) (
        subst
          (λ l. Returns s Republished l h.world.memory (
            after (in_ledger free_constmap) (
              receive_direction s lib publish t d direction.0 direction.1 message
                (some message.properties) h')))
          (free_constmap-take_constmap s h.ledger)
          (Returns-after s Republished Republished h'.ledger h.world.memory free_constmap
            (receive_direction s lib publish t d direction.0 direction.1 message
              (some message.properties) h')
            (receive_direction-Returns source h' refl) (λ m new. new)))
