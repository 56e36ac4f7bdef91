-- ===== src/Gateway/State.antt =====
-- The data of core/src/gateway_ll.c and the searches in its vectors. A MODULE_DATA does not change
-- while it lives, so a pointer to one is its value.
use azure_iot_gateway_sdk.Base.{
  ℕ, Bool, true, false, ◌&&◌, ◌||◌, Option, some, none, List, [], ◌∷◌, ◌==◌, if◌then◌else◌,
}
use azure_iot_gateway_sdk.Broker.State.{Broker}

abbrev pub Name : Type 0
Name = List ℕ

-- MODULE_DATA
pub record ModuleData : Type 0 where
  pub module_name : Name
  pub module_library_handle : ℕ
  pub module_handle : ℕ

-- LINK_DATA; a link from any source has no source.
pub data Link : Type 0 where
  from_any : (module_sink : ModuleData) → Link
  from_one : (module_source module_sink : ModuleData) → Link

-- GATEWAY_HANDLE_DATA. `event_system` says whether the event system is there: it is a null pointer until
-- Gateway_LL_Create has made it. Nothing reads `broker_ready`.
pub record Gateway : Type 0 where
  pub broker : Option Broker
  pub event_system : Bool
  pub modules : List ModuleData
  pub links : List Link

-- GATEWAY_LINK_ENTRY with its names, GATEWAY_MODULES_ENTRY with its path and name.
pub record LinkEntry : Type 0 where
  pub module_source : Name
  pub module_sink : Name

pub record ModulesEntry : Type 0 where
  pub module_path : Option Name
  pub module_name : Option Name

-- GATEWAY_ALL
abbrev pub gateway_all : Name
gateway_all = b'*' ∷ []

-- `strcmp(a, b) == 0`
unfoldable pub strcmp_eq : Name → Name → Bool
strcmp_eq [] [] = true
strcmp_eq [] (b ∷ bs) = false
strcmp_eq (a ∷ as') [] = false
strcmp_eq (a ∷ as') (b ∷ bs) = let rest = strcmp_eq as' bs in if a == b then rest else false

-- `VECTOR_find_if` gives the first element that fits.
unfoldable pub find_if : {A : Type 0} → (A → Bool) → List A → Option A
find_if p [] = none
find_if p (x ∷ xs) = if p x then some x else find_if p xs

-- `VECTOR_erase` of that element.
unfoldable pub erase_if : {A : Type 0} → (A → Bool) → List A → List A
erase_if p [] = []
erase_if p (x ∷ xs) = if p x then xs else x ∷ erase_if p xs

unfoldable pub module_name_find : Name → ModuleData → Bool
module_name_find name element = strcmp_eq element.module_name name

unfoldable pub module_data_find : ℕ → ModuleData → Bool
module_data_find handle element = element.module_handle == handle

unfoldable pub link_name_both_find : Name → Link → Bool
link_name_both_find name (from_any sink) = strcmp_eq sink.module_name name
link_name_both_find name (from_one source sink) =
    strcmp_eq sink.module_name name || strcmp_eq source.module_name name

-- Whether the entry's source is "*" is tested first.
unfoldable pub link_entry_fits : Bool → LinkEntry → Link → Bool
link_entry_fits true entry (from_any sink) = strcmp_eq sink.module_name entry.module_sink
link_entry_fits true entry (from_one source sink) = false
link_entry_fits false entry (from_any sink) = false
link_entry_fits false entry (from_one source sink) =
    strcmp_eq sink.module_name entry.module_sink && strcmp_eq source.module_name entry.module_source

unfoldable pub link_data_find : LinkEntry → Link → Bool
unfolding link_entry_fits
link_data_find entry element =
    link_entry_fits (strcmp_eq gateway_all entry.module_source) entry element

unfoldable pub check_if_module_exists : Gateway → Name → Bool
check_if_module_exists gw name = elim (find_if (module_name_find name) gw.modules) [
  | none ↦ false
  | some m ↦ true
]

unfoldable pub check_if_link_exists : Gateway → LinkEntry → Bool
check_if_link_exists gw entry = elim (find_if (link_data_find entry) gw.links) [
  | none ↦ false
  | some l ↦ true
]
