-- ===== src/Identity/Config.antt =====
-- The configuration in modules/identitymap/src/identitymap.c: IdentityMapConfig_ToUpperCase,
-- IdentityMapConfig_CopyDeep, IdentityMapConfig_Free, IdentityMapConfig_IsCanonicalMAC and
-- IdentityMap_ValidateConfig.
use azure_iot_gateway_sdk.Base.{
  ℕ, zero, suc, ◌-◌, Bool, true, false, ◌&&◌, ◌||◌, not, Option, some, none, List, [], ◌∷◌, length,
  map, ltb, ◌==◌, if◌then◌else◌,
}
use azure_iot_gateway_sdk.Message.Shared.{Text}
use azure_iot_gateway_sdk.Broker.World.{M, pure, ◌>>=◌, ◌>>◌, malloc, free}

-- IDENTITY_MAP_CONFIG of the configuration, where `none` is a null pointer.
pub record IdentityMapConfig : Type 0 where
  pub mac_address : Option Text
  pub device_id : Option Text
  pub device_key : Option Text

-- IDENTITY_MAP_CONFIG in the tables of the module.
pub record Mapping : Type 0 where
  pub mac_address : Text
  pub device_id : Text
  pub device_key : Text

abbrev pub in_range : ℕ → ℕ → ℕ → Bool
in_range lo hi c = not (ltb c lo) && not (ltb hi c)

-- `toupper` and `isxdigit` in the C locale.
unfoldable pub toupper : ℕ → ℕ
toupper c = if in_range b'a' b'z' c then c - 32 else c

unfoldable pub isxdigit : ℕ → Bool
isxdigit c = in_range b'0' b'9' c || in_range b'a' b'f' c || in_range b'A' b'F' c

-- mallocAndStrcpy_s; it refuses a null pointer.
unfoldable pub malloc_and_strcpy : Option Text → M (Option Text)
malloc_and_strcpy none = pure none
malloc_and_strcpy (some text) = do made ← malloc; pure (if made then some text else none)

unfoldable pub upper_text : Option Text → Option Text
upper_text none = none
upper_text (some text) = some (map toupper text)

unfoldable pub to_upper_case : Option Text → M (Option Text)
to_upper_case text = do result ← malloc_and_strcpy text; pure (upper_text result)

unfoldable pub with_key : Text → Text → Option Text → M (Option Mapping)
with_key mac id none = do free; free; pure none
with_key mac id (some key) =
    pure (some (record { mac_address = mac; device_id = id; device_key = key }))

unfoldable pub with_id : Text → IdentityMapConfig → Option Text → M (Option Mapping)
with_id mac source none = do free; pure none
with_id mac source (some id) = do key ← malloc_and_strcpy source.device_key; with_key mac id key

unfoldable pub with_mac : IdentityMapConfig → Option Text → M (Option Mapping)
with_mac source none = pure none
with_mac source (some mac) = do id ← malloc_and_strcpy source.device_id; with_id mac source id

unfoldable pub copy_deep : IdentityMapConfig → M (Option Mapping)
copy_deep source = do mac ← to_upper_case source.mac_address; with_mac source mac

unfoldable pub free_mapping : Mapping → M (Unit {0})
free_mapping m = do free; free; free

-- A character of a string; behind the others stands the terminator.
abbrev pub char_at : Text → ℕ → ℕ
char_at [] i = 0
char_at (c ∷ cs) zero = c
char_at (c ∷ cs) (suc i) = char_at cs i

unfoldable pub digits_at : List ℕ → Text → Bool
digits_at [] mac = true
digits_at (i ∷ places) mac =
    let rest = digits_at places mac in if isxdigit (char_at mac i) then rest else false

unfoldable pub colons_at : List ℕ → Text → Bool
colons_at [] mac = true
colons_at (i ∷ places) mac =
    let rest = colons_at places mac in if char_at mac i == b':' then rest else false

abbrev pub fixed_size : ℕ
fixed_size = 17

abbrev pub digits : List ℕ
digits = 0 ∷ 1 ∷ 3 ∷ 4 ∷ 6 ∷ 7 ∷ 9 ∷ 10 ∷ 12 ∷ 13 ∷ 15 ∷ 16 ∷ []

abbrev pub colons : List ℕ
colons = 2 ∷ 5 ∷ 8 ∷ 11 ∷ 14 ∷ []

unfoldable pub is_canonical_mac : Text → Bool
is_canonical_mac mac =
    if length mac == fixed_size
    then (if digits_at digits mac then colons_at colons mac else false)
    else false

unfoldable pub valid_fields : Option Text → Option Text → Option Text → Bool
valid_fields mac none key = false
valid_fields mac (some id) none = false
valid_fields none (some id) (some key) = false
valid_fields (some mac) (some id) (some key) = is_canonical_mac mac

unfoldable pub valid_element : IdentityMapConfig → Bool
valid_element element = valid_fields element.mac_address element.device_id element.device_key

unfoldable pub valid_elements : List IdentityMapConfig → Bool
valid_elements [] = true
valid_elements (element ∷ elements) =
    let rest = valid_elements elements in if valid_element element then rest else false

unfoldable pub validate_config : List IdentityMapConfig → Bool
validate_config [] = false
validate_config (element ∷ elements) = valid_elements (element ∷ elements)
