-- ===== src/Identity/Tests.antt =====
-- Runs of modules/identitymap/src/identitymap.c with two devices.
use azure_iot_gateway_sdk.Base.{
  ℕ, ◌≡◌, ◌≢◌, ◌↔◌, refl, inl, inr, true, false, some, none, List, [], ◌∷◌, map,
}
use azure_iot_gateway_sdk.Message.Shared.{Text}
use azure_iot_gateway_sdk.Message.Handle.{MessageData}
use azure_iot_gateway_sdk.Message.Samples.{list_lib, list_clones, three_bytes, nothing_held}
use azure_iot_gateway_sdk.Broker.World.{World}
use azure_iot_gateway_sdk.Broker.Samples.{world_holding}
use azure_iot_gateway_sdk.Gateway.State.{strcmp_eq}
use azure_iot_gateway_sdk.Identity.Config.{
  IdentityMapConfig, Mapping, toupper, isxdigit, malloc_and_strcpy, upper_text, to_upper_case,
  with_key, with_id, with_mac, copy_deep, digits_at, colons_at, is_canonical_mac, valid_fields,
  valid_element, valid_elements, validate_config,
}
use azure_iot_gateway_sdk.Identity.Tables.{strcmp}
use azure_iot_gateway_sdk.Identity.Create.{
  IdentityMapData, with_second, with_first, copy_all, with_copies, fill_tables, allocate_tables,
  identity_map_create,
}
use azure_iot_gateway_sdk.Identity.Canonical.{IsPairs, is_canonical_mac_iff}
use azure_iot_gateway_sdk.Identity.Creation.{stored}
use azure_iot_gateway_sdk.Identity.Lifetime.{Created, identity_map_create-Created}
use azure_iot_gateway_sdk.Identity.Valid.{identity_map_create-ne-none}
use azure_iot_gateway_sdk.Identity.Maps.{gw_mac_address_property, gw_source_property}
use azure_iot_gateway_sdk.Identity.Receive.{Held, identity_map_receive}
use azure_iot_gateway_sdk.Identity.Publishing.{Returns}
use azure_iot_gateway_sdk.Identity.Wanted.{IsRepublished}
use azure_iot_gateway_sdk.Identity.Delivers.{Delivers}
use azure_iot_gateway_sdk.Identity.Answers.{IsForCloud}
use azure_iot_gateway_sdk.Identity.Configured.{configured-Returns, configured-Delivers}
use azure_iot_gateway_sdk.Identity.Sorting.{insert, insertion_sort, list_tables, list_tables-laws}
use azure_iot_gateway_sdk.Identity.Samples.{
  look_up, list_maps, list_maps-laws, list_maps-NeverFails, publish, publish-Publishes,
}

-- "..:BB:cc:12:34:5F", with its first two digits before it.
abbrev mac_with : ℕ → ℕ → Text
mac_with a b =
    a ∷ b ∷ b':' ∷ b'B' ∷ b'B' ∷ b':' ∷ b'c' ∷ b'c' ∷ b':' ∷ b'1' ∷ b'2' ∷ b':' ∷ b'3' ∷ b'4' ∷ b':'
    ∷ b'5' ∷ b'F' ∷ []

is_canonical_mac_iff_example :
    (is_canonical_mac (mac_with b'a' b'0') ≡ true) ↔ IsPairs 5 (mac_with b'a' b'0')
is_canonical_mac_iff_example = is_canonical_mac_iff (mac_with b'a' b'0')

canonical : is_canonical_mac (mac_with b'a' b'0') ≡ true
unfolding is_canonical_mac digits_at colons_at isxdigit
canonical = refl

not_canonical : is_canonical_mac (mac_with b'g' b'0') ≡ false
unfolding is_canonical_mac digits_at colons_at isxdigit
not_canonical = refl

abbrev device : ℕ → Text
device n = b'd' ∷ n ∷ []

abbrev element : ℕ → IdentityMapConfig
element n = record {
  mac_address = some (mac_with b'a' n);
  device_id = some (device n);
  device_key = some (b'k' ∷ []);
}

abbrev two_devices : List IdentityMapConfig
two_devices = element b'2' ∷ element b'1' ∷ []

abbrev platform : World
platform = world_holding 20 10

identity_map_create-Created_example :
    Created list_tables list_tables-laws
      (some 64)
      (some two_devices)
      platform
      (identity_map_create list_tables (some 64) (some two_devices) platform)
identity_map_create-Created_example =
    identity_map_create-Created list_tables list_tables-laws (some 64) (some two_devices) platform

valid : validate_config two_devices ≡ true
unfolding validate_config valid_elements valid_element valid_fields is_canonical_mac digits_at
    colons_at isxdigit
valid = refl

identity_map_create-ne-none_example :
    (identity_map_create list_tables (some 64) (some two_devices) platform).0 ≢ none
identity_map_create-ne-none_example =
    identity_map_create-ne-none list_tables 64 two_devices platform (λ n. refl) valid

abbrev sorted_tables : List Mapping
sorted_tables = map stored (element b'1' ∷ element b'2' ∷ [])

abbrev two_mapped : IdentityMapData
two_mapped = record {
  broker = 64;
  mapping_size = 2;
  mac_to_dev_id_array = sorted_tables;
  dev_id_to_mac_array = sorted_tables;
}

abbrev platform_after : World
platform_after = record platform { calls = 15; memory = 35 }

made :
    identity_map_create list_tables (some 64) (some two_devices) platform
    ≡ (some two_mapped, platform_after)
unfolding identity_map_create validate_config valid_elements valid_element valid_fields
    is_canonical_mac digits_at colons_at isxdigit allocate_tables fill_tables with_copies copy_all
    with_first with_second copy_deep to_upper_case malloc_and_strcpy upper_text with_mac with_id
    with_key toupper insertion_sort insert strcmp
made = refl

-- Telemetry of the second device, with its address in lower case.
abbrev telemetry : MessageData list_lib
telemetry = record {
  refs = 1;
  properties =
      (gw_source_property, b'b' ∷ b'l' ∷ b'e' ∷ [])
      ∷ (gw_mac_address_property, mac_with b'a' b'2')
      ∷ [];
  content = three_bytes;
}

abbrev held : Held
held = record { ledger = nothing_held; world = platform_after }

configured-Returns_example :
    Returns list_lib
      (IsRepublished list_lib list_maps (map stored two_devices) (map stored two_devices) telemetry)
      held.ledger
      held.world.memory
      (identity_map_receive list_lib list_maps publish list_tables
        (some two_mapped)
        (some telemetry)
        held)
configured-Returns_example =
    configured-Returns list_lib list_maps list_maps-laws list_tables list_tables-laws list_clones
      publish publish-Publishes 64 two_devices platform platform_after two_mapped made telemetry
      held

canonical_upper : is_canonical_mac (map toupper (mac_with b'a' b'2')) ≡ true
unfolding is_canonical_mac digits_at colons_at isxdigit toupper
canonical_upper = refl

telemetry-IsForCloud : IsForCloud list_lib list_maps (map stored two_devices) telemetry
unfolding look_up strcmp_eq toupper
telemetry-IsForCloud = (
  b'b' ∷ b'l' ∷ b'e' ∷ [],
  mac_with b'a' b'2',
  stored (element b'2'),
  refl,
  λ h. cc,
  λ h. cc,
  refl,
  (is_canonical_mac_iff (map toupper (mac_with b'a' b'2'))).0 canonical_upper,
  refl,
  inl refl,
  inl refl,
)

configured-Delivers_example : Delivers list_lib (
    identity_map_receive list_lib list_maps publish list_tables
      (some two_mapped)
      (some telemetry)
      held)
configured-Delivers_example =
    configured-Delivers list_lib list_maps list_maps-laws list_tables list_tables-laws list_clones
      publish publish-Publishes 64 two_devices platform platform_after two_mapped made telemetry
      held list_maps-NeverFails refl (inr telemetry-IsForCloud)
