-- ===== src/Identity/Receive.antt =====
-- modules/identitymap/src/identitymap.c: IdentityMap_Receive with IdentityMap_RepublishD2C,
-- IdentityMap_RepublishC2D, publish_with_new_properties and determine_message_direction.
use azure_iot_gateway_sdk.Base.{Bool, true, false, Option, some, none, [], if◌then◌else◌}
use azure_iot_gateway_sdk.Base.Outcome.{Outcome, ok, fail, fault}
use azure_iot_gateway_sdk.Message.Shared.{
  SharedLib, Ledger, Text, take_map, free_map, free_constmap, free_buffer,
}
use azure_iot_gateway_sdk.Message.Handle.{
  MessageData, create_from_buffer, get_properties, get_content_handle, destroy,
}
use azure_iot_gateway_sdk.Broker.World.{World}
use azure_iot_gateway_sdk.Broker.World
use azure_iot_gateway_sdk.Broker.Publish.{Published}
use azure_iot_gateway_sdk.Gateway.State.{strcmp_eq}
use azure_iot_gateway_sdk.Identity.Config.{Mapping, to_upper_case, is_canonical_mac}
use azure_iot_gateway_sdk.Identity.Tables.{TableLib, mac_compare, id_compare}
use azure_iot_gateway_sdk.Identity.Create.{IdentityMapData}
use azure_iot_gateway_sdk.Identity.Maps.{
  gw_mac_address_property, gw_source_property, gw_devicename_property, gw_devicekey_property,
  gw_idmap_module, gw_iothub_module, MapLib, d2c_properties, c2d_properties,
}

-- What the message library holds, and the platform.
pub record Held : Type 0 where
  pub ledger : Ledger
  pub world : World

-- A part of the handler that may publish a message: the message as it was published, if any was.
abbrev pub Handler : SharedLib → Type 0
Handler s = Held → Outcome (Option (MessageData s) × Held)

abbrev pub in_ledger : (Ledger → Ledger) → Held → Held
in_ledger f h = record h { ledger = f h.ledger }

-- A step behind a part of the handler.
abbrev pub after :
    {s : SharedLib}
    → (Held → Held)
    → Outcome (Option (MessageData s) × Held)
    → Outcome (Option (MessageData s) × Held)
after f (ok (published, h)) = ok (published, f h)
after f fail = fail
after f fault = fault

-- Whether to go on, and whether the message is from the cloud.
unfoldable pub determine_message_direction : Option Text → Bool × Bool
determine_message_direction none = (false, false)
determine_message_direction (some source) =
    if strcmp_eq source gw_iothub_module
    then (true, true)
    else if strcmp_eq source gw_idmap_module
    then (false, false)
    else (true, false)

module _ (s : SharedLib) (lib : MapLib s) where
  open lib use {constmap_get_value, constmap_clone_writeable, map_add_or_update, map_delete}

  -- ConstMap_GetValue; a null pointer has no values.
  unfoldable pub get_value : Option s.ConstMap → Text → Option Text
  get_value none key = none
  get_value (some c) key = constmap_get_value c key

  -- Broker_Publish with the module's broker and handle.
  module _ (publish : Option (MessageData s) → Ledger → World → Outcome (Published s)) where
    unfoldable pub leave_publish_new : MessageData s → Outcome (Published s) → Handler s
    leave_publish_new new (ok p) h =
        let (message, l) = destroy s p.message p.ledger in
        ok (some new, record { ledger = l; world = p.world })
    leave_publish_new new fail h = fail
    leave_publish_new new fault h = fault

    unfoldable pub publish_new : Option (MessageData s) → Handler s
    publish_new none h = ok (none, h)
    publish_new (some new) h = leave_publish_new new (publish (some new) h.ledger h.world) h

    unfoldable pub publish_content : s.MapHandle → Option s.ConstBuffer → Handler s
    publish_content properties none h = ok (none, h)
    publish_content properties (some content) h =
        let (new, l) =
          create_from_buffer s
            (some (record { source_content = some content; source_properties = some properties }))
            h.ledger in
        after (in_ledger free_buffer) (publish_new new (record h { ledger = l }))

    unfoldable pub publish_with_new_properties : s.MapHandle → MessageData s → Handler s
    publish_with_new_properties properties message h =
        let (content, l) = get_content_handle s (some message) h.ledger in
        publish_content properties content (record h { ledger = l })

    unfoldable pub publish_changed : Option s.MapHandle → MessageData s → Handler s
    publish_changed none message h = ok (none, h)
    publish_changed (some properties) message h = publish_with_new_properties properties message h

    unfoldable pub republish_writeable :
        (s.MapHandle → Option s.MapHandle) → MessageData s → Option s.MapHandle → Handler s
    republish_writeable change message none h = ok (none, h)
    republish_writeable change message (some m) h =
        after (in_ledger free_map) (publish_changed (change m) message (in_ledger take_map h))

    unfoldable pub republish_properties :
        (s.MapHandle → Option s.MapHandle) → MessageData s → Option s.ConstMap → Handler s
    republish_properties change message none h = ok (none, h)
    republish_properties change message (some c) h =
        after (in_ledger free_constmap)
          (republish_writeable change message (constmap_clone_writeable c) h)

    -- IdentityMap_RepublishD2C and IdentityMap_RepublishC2D, which differ in the changes.
    unfoldable pub republish : (s.MapHandle → Option s.MapHandle) → MessageData s → Handler s
    republish change message h =
        let (properties, l) = get_properties s (some message) h.ledger in
        republish_properties change message properties (record h { ledger = l })

    unfoldable pub republish_match :
        (Mapping → s.MapHandle → Option s.MapHandle) → MessageData s → Option Mapping → Handler s
    republish_match change message none h = ok (none, h)
    republish_match change message (some match) h = republish (change match) message h

    module _ (t : TableLib) (d : IdentityMapData) where
      unfoldable pub receive_c2d : MessageData s → Option Text → Handler s
      receive_c2d message none h = ok (none, h)
      receive_c2d message (some device_name) h =
          let key : Mapping = record {
            mac_address = [];
            device_id = device_name;
            device_key = [];
          } in
          republish_match (c2d_properties s lib) message
            (t.bsearch key d.dev_id_to_mac_array id_compare) h

      -- Whether the message has both a name and a key.
      unfoldable pub has_both : Option Text → Option Text → Bool
      has_both none key = false
      has_both (some name) none = false
      has_both (some name) (some key) = true

      unfoldable pub find_mac : Bool → MessageData s → Text → Handler s
      find_mac true message mac h = ok (none, h)
      find_mac false message mac h =
          if is_canonical_mac mac
          then republish_match (d2c_properties s lib) message
              (t.bsearch (record { mac_address = mac; device_id = []; device_key = [] })
                d.mac_to_dev_id_array mac_compare)
              h
          else ok (none, h)

      abbrev pub free_text : Held → Held
      free_text h = record h { world = (World.free h.world).1 }

      unfoldable pub receive_d2c : MessageData s → Option s.ConstMap → Option Text → Handler s
      receive_d2c message properties none h = ok (none, h)
      receive_d2c message properties (some mac) h = after free_text (
          find_mac
            (has_both (get_value properties gw_devicename_property)
              (get_value properties gw_devicekey_property))
            message mac h)

      unfoldable pub receive_direction : Bool → Bool → MessageData s → Option s.ConstMap → Handler s
      receive_direction false c2d message properties h = ok (none, h)
      receive_direction true true message properties h =
          receive_c2d message (get_value properties gw_devicename_property) h
      receive_direction true false message properties h =
          let (mac, w) = to_upper_case (get_value properties gw_mac_address_property) h.world in
          receive_d2c message properties mac (record h { world = w })

      -- ConstMap_Destroy; a null pointer is ignored.
      unfoldable pub destroy_properties : Option s.ConstMap → Held → Held
      destroy_properties none h = h
      destroy_properties (some c) h = in_ledger free_constmap h

      unfoldable pub receive_message : MessageData s → Handler s
      receive_message message h =
          let (properties, l) = get_properties s (some message) h.ledger in
          let (goes_on, c2d) =
            determine_message_direction (get_value properties gw_source_property) in
          after (destroy_properties properties)
            (receive_direction goes_on c2d message properties (record h { ledger = l }))

    unfoldable pub identity_map_receive :
        TableLib → Option IdentityMapData → Option (MessageData s) → Handler s
    identity_map_receive t none message h = ok (none, h)
    identity_map_receive t (some d) none h = ok (none, h)
    identity_map_receive t (some d) (some message) h = receive_message t d message h
