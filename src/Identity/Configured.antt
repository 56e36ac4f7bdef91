-- ===== src/Identity/Configured.antt =====
-- IdentityMap_Receive (modules/identitymap/src/identitymap.c) on a module that IdentityMap_Create has made.
use azure_iot_gateway_sdk.Base.{ℕ, ◌≡◌, ◌⊎◌, subst, inl, inr, true, Option, some, List, map}
use azure_iot_gateway_sdk.Base.Outcome.{Outcome}
use azure_iot_gateway_sdk.Message.Shared.{SharedLib, Ledger}
use azure_iot_gateway_sdk.Message.Handle.{MessageData}
use azure_iot_gateway_sdk.Message.References.{CanClone}
use azure_iot_gateway_sdk.Broker.World.{World}
use azure_iot_gateway_sdk.Broker.Publish.{Published}
use azure_iot_gateway_sdk.Identity.Tables.{TableLib, TableLaws}
use azure_iot_gateway_sdk.Identity.Create.{IdentityMapData}
use azure_iot_gateway_sdk.Identity.Maps.{MapLib, MapLaws}
use azure_iot_gateway_sdk.Identity.Receive.{Held, identity_map_receive}
use azure_iot_gateway_sdk.Identity.Publishing.{Publishes}
use azure_iot_gateway_sdk.Identity.Capable.{NeverFails}
use azure_iot_gateway_sdk.Identity.Delivers.{Delivers}
use azure_iot_gateway_sdk.Identity.Config.{IdentityMapConfig}
use azure_iot_gateway_sdk.Identity.Create.{identity_map_create}
use azure_iot_gateway_sdk.Identity.Creation.{stored}
use azure_iot_gateway_sdk.Identity.Lifetime.{Made, identity_map_create-Created}
use azure_iot_gateway_sdk.Identity.Publishing.{Returns}
use azure_iot_gateway_sdk.Identity.Wanted.{IsRepublished}
use azure_iot_gateway_sdk.Identity.Receiving.{Returns-mono}
use azure_iot_gateway_sdk.Identity.Received.{identity_map_receive-Returns}
use azure_iot_gateway_sdk.Identity.Answers.{IsForDevice, IsForCloud, identity_map_receive-Delivers}

module _ (s : SharedLib) (lib : MapLib s) (map_laws : MapLaws s lib) (t : TableLib)
    (laws : TableLaws t) (clones : CanClone s)
    (publish : Option (MessageData s) → Ledger → World → Outcome (Published s))
    (broker : Publishes s publish) (handle : ℕ) (elements : List IdentityMapConfig) (w w' : World)
    (d : IdentityMapData)
    (made : identity_map_create t (some handle) (some elements) w ≡ (some d, w'))
    (message : MessageData s) (h : Held) where
  tables : Made t laws handle elements w (some d, w')
  tables =
      subst (Made t laws handle elements w) made
        (identity_map_create-Created t laws (some handle) (some elements) w).0

  -- A module that IdentityMap_Create has made of a configuration takes every message: whichever allocations and
  -- map calls fail, IdentityMap_Receive returns and gives back all it took, so what the message library
  -- holds and the memory are as before. It publishes at most one message, and only one with the content
  -- of the message received, and either, for a message of the cloud, with the MAC address of the configured
  -- device that it names and without a device's name and key, or, for a message of another source that is
  -- no identity map, with the id and key of the configured device whose MAC address it has, in either
  -- case. The message is marked as of an identity map and has the other properties unchanged. Only where
  -- Map_Delete fails for the key with an error that is neither MAP_KEYNOTFOUND nor MAP_INVALIDARG, a
  -- message of the cloud may be published with its key as it was. This is for a library whose clones
  -- succeed and whose maps, sorting and search are as documented, and a Broker_Publish that returns.
  pub configured-Returns :
      Returns s
        (IsRepublished s lib (map stored elements) (map stored elements) message)
        h.ledger
        h.world.memory
        (identity_map_receive s lib publish t (some d) (some message) h)
  configured-Returns =
      Returns-mono s (IsRepublished s lib d.dev_id_to_mac_array d.mac_to_dev_id_array message)
        (IsRepublished s lib (map stored elements) (map stored elements) message) h.ledger
        h.world.memory (identity_map_receive s lib publish t (some d) (some message) h)
        (identity_map_receive-Returns s lib map_laws t laws clones publish broker d message h)
        (λ new republished. (
          republished.0,
          elim republished.1 [
            | inl (match, cloud, named, among, changed) ↦
                inl (match, cloud, named, tables.3.sound match among, changed)
            | inr
                  (
                    source, mac, match, sent, not_cloud, not_mapping, addressed, canonical, same,
                    lacking, among, changed,
                  ) ↦
                inr (
                  source,
                  mac,
                  match,
                  sent,
                  not_cloud,
                  not_mapping,
                  addressed,
                  canonical,
                  same,
                  lacking,
                  tables.2.sound match among,
                  changed,
                )
          ],
        ))

  -- Where no allocation and no map call fails, a module that IdentityMap_Create has made of a configuration
  -- publishes a message for every message of the cloud that names a configured device, and for every message of
  -- another source, no identity map, that has the MAC address of a configured device, in either case, and
  -- lacks the device's name or its key. The library's clones succeed, its maps, sorting and search are
  -- as documented, and Broker_Publish returns.
  pub configured-Delivers :
      NeverFails s lib map_laws
      → h.world.oracle h.world.calls ≡ true
      → IsForDevice s lib (map stored elements) message
        ⊎ IsForCloud s lib (map stored elements) message
      → Delivers s (identity_map_receive s lib publish t (some d) (some message) h)
  configured-Delivers memory there wanted =
      identity_map_receive-Delivers s lib map_laws memory clones publish broker t laws d message h
        tables.2.sorted tables.3.sorted there
        (elim wanted [
          | inl (match, cloud, named, among) ↦
              inl (match, cloud, named, tables.3.complete match among)
          | inr
                (
                  source, mac, match, sent, not_cloud, not_mapping, addressed, canonical, same,
                  lacking, among,
                ) ↦
              inr (
                source,
                mac,
                match,
                sent,
                not_cloud,
                not_mapping,
                addressed,
                canonical,
                same,
                lacking,
                tables.2.complete match among,
              )
        ])
