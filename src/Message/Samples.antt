-- ===== src/Message/Samples.antt =====
-- A library for core/src/message.c that keeps maps and buffers as lists, and small messages on it.
use azure_iot_gateway_sdk.Base.{
  ℕ, zero, suc, refl, Option, some, none, List, [], ◌∷◌, ◌++◌, take, true,
}
use azure_iot_gateway_sdk.Message.Shared.{SharedLib, Copies, HasMemory, Ledger, Property}
use azure_iot_gateway_sdk.Message.Handle.{MessageData}
use azure_iot_gateway_sdk.Message.References.{CanClone}

abbrev buffer_of : Option (List ℕ) → ℕ → Option (List ℕ)
buffer_of none zero = some []
buffer_of none (suc n) = none
buffer_of (some bytes) n = some (take n bytes)

abbrev pub list_lib : SharedLib
list_lib = record {
  MapHandle = List Property;
  ConstMap = List Property;
  ConstBuffer = List ℕ;
  malloc_message = true;
  map_create = some [];
  map_add = λ m k v. some (m ++ (k, v) ∷ []);
  constmap_create = λ m. m;
  constmap_clone = λ m. some m;
  constmap_get_internals = λ m. some m;
  constbuffer_create = buffer_of;
  constbuffer_clone = λ b. some b;
  constbuffer_get_content = λ b. b;
}

pub list_copies : Copies list_lib
list_copies = record {
  entries = λ m. m;
  entries-map_create = λ m e. cc;
  entries-map_add = λ m m' k v e. cc;
  entries-constmap_create = λ m c e. cc;
  content-constbuffer_create = λ bytes n b h e. cc;
}

pub list_memory : HasMemory list_lib list_copies
list_memory = record {
  malloc_message_true = refl;
  map_create-ne-none = λ e. cc;
  map_add-ne-none = λ m k v h e. cc;
  constmap_create-ne-none = λ m e. cc;
  constbuffer_create-ne-none = λ bytes n h e. cc;
}

pub list_clones : CanClone list_lib
list_clones = record { constmap_clone_same = λ c. refl; constbuffer_clone_same = λ b. refl }

abbrev pub two_props : List Property
two_props = (b'a' ∷ [], b'1' ∷ []) ∷ (b'b' ∷ b'c' ∷ [], []) ∷ []

abbrev pub three_bytes : List ℕ
three_bytes = 7 ∷ 0 ∷ 255 ∷ []

abbrev pub sample_message : MessageData list_lib
sample_message = record { refs = 1; properties = two_props; content = three_bytes }

abbrev pub nothing_held : Ledger
nothing_held = record { blocks = 0; maps = 0; constmaps = 0; buffers = 0 }
