-- ===== src/Identity/Receiving.antt =====
-- IdentityMap_Receive (modules/identitymap/src/identitymap.c): which messages it publishes.
use mathlib.Core.Path.{fun_ext}
use azure_iot_gateway_sdk.Base.{
  ℕ, ◌+◌, ◌≡◌, ◌≢◌, ◌⊎◌, refl, sym, ap, ◌∙◌, inl, inr, Bool, true, false, Option, some, none, [],
  ◌∷◌, map, Bool-cases, arith,
}
use Prim.Native.Nat.{Ordering}
use azure_iot_gateway_sdk.Base.Outcome.{Outcome, ok, fail, fault}
use azure_iot_gateway_sdk.Message.Shared.{SharedLib, Ledger, Text}
use azure_iot_gateway_sdk.Message.Handle.{MessageData}
use azure_iot_gateway_sdk.Message.References.{CanClone}
use azure_iot_gateway_sdk.Broker.World.{World}
use azure_iot_gateway_sdk.Broker.Publish.{Published}
use azure_iot_gateway_sdk.Identity.Config.{Mapping, toupper, is_canonical_mac}
use azure_iot_gateway_sdk.Identity.Tables.{strcmp, mac_compare, id_compare, TableLib, TableLaws}
use azure_iot_gateway_sdk.Identity.Create.{IdentityMapData}
use azure_iot_gateway_sdk.Identity.Canonical.{is_canonical_mac_iff}
use azure_iot_gateway_sdk.Identity.Creation.{Copied}
use azure_iot_gateway_sdk.Identity.Maps.{
  gw_mac_address_property, gw_source_property, gw_devicename_property, gw_devicekey_property,
  gw_idmap_module, gw_iothub_module, MapLib, MapLaws, d2c_properties, c2d_properties,
}
use azure_iot_gateway_sdk.Identity.Receive.{
  Held, after, get_value, republish, republish_match, receive_c2d, has_both, find_mac, free_text,
  receive_d2c,
}
use azure_iot_gateway_sdk.Identity.Changes.{
  IsToCloud, IsToDevice, KeyDeleteFails, d2c_properties-IsToCloud, c2d_properties-IsToDevice,
}
use azure_iot_gateway_sdk.Identity.Publishing.{Publishes, Returns, IsChanged, republish-Returns}
use azure_iot_gateway_sdk.Identity.Wanted.{IsRepublished}

strcmp→eq : (a b : Text) → strcmp a b ≡ Ordering.eq → a ≡ b
unfolding strcmp
strcmp→eq [] [] h = refl
strcmp→eq [] (b ∷ bs) h = absurd cc
strcmp→eq (a ∷ as') [] h = absurd cc
strcmp→eq (a ∷ as') (b ∷ bs) h = ground (arith, strcmp→eq as' bs)

module _ (s : SharedLib) where
  pub Returns-mono :
      (P Q : MessageData s → Type 0) (l : Ledger) (n : ℕ)
      (r : Outcome (Option (MessageData s) × Held))
      → Returns s P l n r
      → ((m : MessageData s) → P m → Q m)
      → Returns s Q l n r
  Returns-mono P Q l n (ok (none, h)) k q = k
  Returns-mono P Q l n (ok (some m, h)) k q = (k.0, k.1, q m k.2)
  Returns-mono P Q l n fail k q = k
  Returns-mono P Q l n fault k q = k

  Returns-free_text :
      (lib : MapLib s) (publish : Option (MessageData s) → Ledger → World → Outcome (Published s))
      (t : TableLib) (d : IdentityMapData) (P : MessageData s → Type 0) (l : Ledger) (n : ℕ)
      (r : Outcome (Option (MessageData s) × Held))
      → Returns s P l (n + 1) r
      → Returns s P l n (after (free_text s lib publish t d) r)
  Returns-free_text lib publish t d P l n (ok (none, h)) k = (k.0, omega arith)
  Returns-free_text lib publish t d P l n (ok (some m, h)) k = (k.0, omega arith, k.2)
  Returns-free_text lib publish t d P l n fail k = k
  Returns-free_text lib publish t d P l n fault k = k

module _ (s : SharedLib) (lib : MapLib s) (map_laws : MapLaws s lib) (t : TableLib)
    (laws : TableLaws t) (clones : CanClone s)
    (publish : Option (MessageData s) → Ledger → World → Outcome (Published s))
    (broker : Publishes s publish) (d : IdentityMapData) (message : MessageData s) where
  changed_values :
      (change : s.MapHandle → Option s.MapHandle) (new : MessageData s)
      (P : (Text → Option Text) → (Text → Option Text) → Type 0)
      → IsChanged s publish clones lib broker change message new
      → ((m m' : s.MapHandle) → change m ≡ some m' → P (map_laws.value m) (map_laws.value m'))
      → P (lib.constmap_get_value message.properties) (lib.constmap_get_value new.properties)
  changed_values change new P (content, (m, m', cloned, changed, made)) k =
      let before : map_laws.value m ≡ lib.constmap_get_value message.properties =
        fun_ext λ key. map_laws.value-clone_writeable message.properties m key cloned in
      let behind : lib.constmap_get_value new.properties ≡ map_laws.value m' =
        fun_ext λ key. map_laws.value-constmap_create m' new.properties key made in
      rw (← before, behind) (k m m' changed)

  republish_match-Returns :
      (change : Mapping → s.MapHandle → Option s.MapHandle) (o : Option Mapping)
      (Q : MessageData s → Type 0) (h : Held)
      → ((match : Mapping) (new : MessageData s)
          → o ≡ some match
          → IsChanged s publish clones lib broker (change match) message new
          → Q new)
      → Returns s Q h.ledger h.world.memory (republish_match s lib publish change message o h)
  unfolding republish_match
  republish_match-Returns change none Q h k = (refl, refl)
  republish_match-Returns change (some match) Q h k =
      Returns-mono s (IsChanged s publish clones lib broker (change match) message) Q h.ledger
        h.world.memory (republish s lib publish (change match) message h)
        (republish-Returns s publish clones lib broker (change match) message h)
        (λ new changed. k match new refl changed)

  abbrev pub Republished : MessageData s → Type 0
  Republished = IsRepublished s lib d.dev_id_to_mac_array d.mac_to_dev_id_array message

  abbrev pub value_of : Text → Option Text
  value_of = lib.constmap_get_value message.properties

  pub receive_c2d-Returns :
      (name : Option Text) (h : Held)
      → value_of gw_source_property ≡ some gw_iothub_module
      → value_of gw_devicename_property ≡ name
      → Returns s Republished h.ledger h.world.memory (receive_c2d s lib publish t d message name h)
  unfolding receive_c2d
  receive_c2d-Returns none h from_cloud named = (refl, refl)
  receive_c2d-Returns (some name) h from_cloud named =
      let key : Mapping = record { mac_address = []; device_id = name; device_key = [] } in
      republish_match-Returns (c2d_properties s lib)
        (t.bsearch key d.dev_id_to_mac_array id_compare) Republished h
        (λ match new found changed.
          let (among, same) =
            laws.bsearch_found (λ m. m.device_id) key d.dev_id_to_mac_array match found in
          (
            changed.0,
            inl (
              match,
              from_cloud,
              named ∙ ap some (strcmp→eq name match.device_id same),
              among,
              changed_values (c2d_properties s lib match) new
                  (IsToDevice (KeyDeleteFails s lib) match) changed
                  (c2d_properties-IsToDevice s lib map_laws match),
            ),
          ))

  lacks_one :
      (name key : Option Text)
      → has_both s lib publish t d name key ≡ false
      → (name ≡ none) ⊎ (key ≡ none)
  unfolding has_both
  lacks_one none key h = inl refl
  lacks_one (some name) none h = inr refl
  lacks_one (some name) (some key) h = absurd cc

  -- A message that is neither of the cloud nor of an identity map, with its MAC address.
  module _ (source text : Text) (sent : value_of gw_source_property ≡ some source)
      (not_cloud : source ≢ gw_iothub_module) (not_mapping : source ≢ gw_idmap_module)
      (addressed : value_of gw_mac_address_property ≡ some text) where
    find_mac-Returns :
        (both : Bool) (h : Held)
        → has_both s lib publish t d
            (value_of gw_devicename_property)
            (value_of gw_devicekey_property)
          ≡ both
        → Returns s Republished h.ledger h.world.memory
            (find_mac s lib publish t d both message (map toupper text) h)
    unfolding find_mac
    find_mac-Returns true h both = (refl, refl)
    find_mac-Returns false h both =
        let mac = map toupper text in
        let key : Mapping = record { mac_address = mac; device_id = []; device_key = [] } in
        elim (Bool-cases (is_canonical_mac mac)) [
          | inr not_canonical ↦ rw not_canonical (refl, refl)
          | inl canonical ↦ rw canonical (
              republish_match-Returns (d2c_properties s lib)
                (t.bsearch key d.mac_to_dev_id_array mac_compare) Republished h
                (λ match new found changed.
                  let (among, same) =
                    laws.bsearch_found (λ m. m.mac_address) key d.mac_to_dev_id_array match found in
                  (
                    changed.0,
                    inr (
                      source,
                      text,
                      match,
                      sent,
                      not_cloud,
                      not_mapping,
                      addressed,
                      (is_canonical_mac_iff mac).0 canonical,
                      sym (strcmp→eq mac match.mac_address same),
                      lacks_one (value_of gw_devicename_property) (value_of gw_devicekey_property)
                          both,
                      among,
                      changed_values (d2c_properties s lib match) new (IsToCloud match) changed
                          (d2c_properties-IsToCloud s lib map_laws match),
                    ),
                  )))
        ]

  pub receive_d2c-Returns :
      (source : Text) (mac : Option Text × World) (l : Ledger) (n : ℕ)
      → value_of gw_source_property ≡ some source
      → source ≢ gw_iothub_module
      → source ≢ gw_idmap_module
      → Copied
          (λ copy.
            (text : Text) × (value_of gw_mac_address_property ≡ some text)
            × (copy ≡ map toupper text))
          n
          1
          mac
      → Returns s Republished l n (
          receive_d2c s lib publish t d message
            (some message.properties)
            mac.0
            (record { ledger = l; world = mac.1 }))
  unfolding receive_d2c get_value
  receive_d2c-Returns source (none, w) l n sent not_cloud not_mapping h = (refl, h)
  receive_d2c-Returns source (some mac, w) l n sent not_cloud not_mapping
        (h, (text, addressed, same)) =
      let both =
        has_both s lib publish t d (value_of gw_devicename_property)
          (value_of gw_devicekey_property) in
      Returns-free_text s lib publish t d Republished l n
        (find_mac s lib publish t d both message mac (record { ledger = l; world = w }))
        (rw (same, ← h)
          (find_mac-Returns source text sent not_cloud not_mapping addressed both
            (record { ledger = l; world = w }) refl))
