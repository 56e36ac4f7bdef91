-- ===== src/Broker/State.antt =====
-- The data of core/src/broker.c and core/inc/broker.h, and the search in the list of modules.
use azure_iot_gateway_sdk.Base.{ℕ, Bool, Option, some, none, List, [], ◌∷◌, ◌==◌, if◌then◌else◌}

-- BROKER_RESULT
pub data BrokerResult : Type 0 where
  broker_ok broker_error broker_add_link_error broker_remove_link_error broker_invalidarg :
      BrokerResult

-- MODULE. A handle is an address, 0 for NULL.
pub record Module : Type 0 where
  pub module_apis : ℕ
  pub module_handle : ℕ

abbrev pub Topic : Type 0
Topic = List ℕ

-- BROKER_MODULEINFO. `topics` are the subscriptions of `receive_socket`.
pub record ModuleInfo : Type 0 where
  pub module_data : Module
  pub quit_message_guid : Topic
  pub topics : List Topic

-- BROKER_HANDLE_DATA, with the count that refcount.h puts beside it.
pub record Broker : Type 0 where
  pub refs : ℕ
  pub modules : List ModuleInfo
  pub url : List ℕ

-- BROKER_LINK_DATA
pub record LinkData : Type 0 where
  pub module_source_handle : ℕ
  pub module_sink_handle : ℕ

unfoldable pub find_module_predicate : ModuleInfo → ℕ → Bool
find_module_predicate element handle = element.module_data.module_handle == handle

-- `list_find` gives the first item that fits.
unfoldable pub list_find : ℕ → List ModuleInfo → Option ModuleInfo
list_find handle [] = none
list_find handle (m ∷ ms) = if find_module_predicate m handle then some m else list_find handle ms

-- `list_remove` of the item that `list_find` gives.
unfoldable pub list_remove : ℕ → List ModuleInfo → List ModuleInfo
list_remove handle [] = []
list_remove handle (m ∷ ms) =
    if find_module_predicate m handle then ms else m ∷ list_remove handle ms

-- A change of the item that `list_find` gives.
unfoldable pub list_update : ℕ → (ModuleInfo → ModuleInfo) → List ModuleInfo → List ModuleInfo
list_update handle f [] = []
list_update handle f (m ∷ ms) =
    if find_module_predicate m handle then f m ∷ ms else m ∷ list_update handle f ms

unfoldable pub broker_locate_handle : Broker → ℕ → Option ModuleInfo
broker_locate_handle b handle = list_find handle b.modules
