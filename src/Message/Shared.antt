-- ===== src/Message/Shared.antt =====
-- What core/src/message.c calls in azure-c-shared-utility (map, constmap, constbuffer, refcount),
-- and the count of what it has taken from there and not given back.
use azure_iot_gateway_sdk.Base.{
  ℕ, ◌+◌, ◌-◌, ◌≡◌, ◌≢◌, ◌≤◌, Bool, true, Option, some, none, List, [], ◌∷◌, ◌++◌, length, take,
  All,
}

-- The bytes of a C string, without its terminator.
abbrev pub Text : Type 0
Text = List ℕ

abbrev pub Property : Type 0
Property = Text × Text

-- `none` is a null pointer or an error code. One run of a routine makes no call twice on the same
-- arguments, so functions of the arguments show every pattern of failures.
pub record SharedLib : Type 1 where
  pub MapHandle : Type 0
  pub ConstMap : Type 0
  pub ConstBuffer : Type 0
  -- Whether the memory for a MESSAGE_HANDLE_DATA is there.
  pub malloc_message : Bool
  pub map_create : Option MapHandle
  pub map_add : MapHandle → Text → Text → Option MapHandle
  pub constmap_create : Option MapHandle → Option ConstMap
  pub constmap_clone : ConstMap → Option ConstMap
  pub constmap_get_internals : ConstMap → Option (List Property)
  pub constbuffer_create : Option (List ℕ) → ℕ → Option ConstBuffer
  pub constbuffer_clone : ConstBuffer → Option ConstBuffer
  pub constbuffer_get_content : ConstBuffer → List ℕ

-- The handles that are held: blocks of memory for messages, maps, constmaps and constbuffers.
pub record Ledger : Type 0 where
  pub blocks : ℕ
  pub maps : ℕ
  pub constmaps : ℕ
  pub buffers : ℕ

abbrev pub take_block : Ledger → Ledger
take_block l = record l { blocks = l.blocks + 1 }

abbrev pub free_block : Ledger → Ledger
free_block l = record l { blocks = l.blocks - 1 }

abbrev pub take_map : Ledger → Ledger
take_map l = record l { maps = l.maps + 1 }

abbrev pub free_map : Ledger → Ledger
free_map l = record l { maps = l.maps - 1 }

abbrev pub take_constmap : Ledger → Ledger
take_constmap l = record l { constmaps = l.constmaps + 1 }

abbrev pub free_constmap : Ledger → Ledger
free_constmap l = record l { constmaps = l.constmaps - 1 }

abbrev pub take_buffer : Ledger → Ledger
take_buffer l = record l { buffers = l.buffers + 1 }

abbrev pub free_buffer : Ledger → Ledger
free_buffer l = record l { buffers = l.buffers - 1 }

module _ (s : SharedLib) where
  open s use {
    MapHandle, ConstMap, ConstBuffer, map_create, map_add, constmap_create, constmap_get_internals,
    constbuffer_create, constbuffer_get_content,
  }

  -- A constmap is a read-only copy of a map, a constbuffer one of the bytes that it was given.
  -- `entries` is what a map holds: a new map is empty, and an added property stands at the end.
  pub record Copies : Type 0 where
    pub entries : MapHandle → List Property
    pub entries-map_create : (m : MapHandle) → map_create ≡ some m → entries m ≡ []
    pub entries-map_add :
        (m m' : MapHandle) (k v : Text)
        → map_add m k v ≡ some m'
        → entries m' ≡ entries m ++ (k, v) ∷ []
    pub entries-constmap_create :
        (m : MapHandle) (c : ConstMap)
        → constmap_create (some m) ≡ some c
        → constmap_get_internals c ≡ some (entries m)
    pub content-constbuffer_create :
        (bytes : List ℕ) (n : ℕ) (b : ConstBuffer)
        → n ≤ length bytes
        → constbuffer_create (some bytes) n ≡ some b
        → constbuffer_get_content b ≡ take n bytes

  -- There is memory for every call, and a map takes every key that it does not hold.
  pub record HasMemory (c : Copies) : Type 0 where
    pub malloc_message_true : s.malloc_message ≡ true
    pub map_create-ne-none : map_create ≢ none
    pub map_add-ne-none :
        (m : MapHandle) (k v : Text)
        → All (λ (p : Property). p.0 ≢ k) (c.entries m)
        → map_add m k v ≢ none
    pub constmap_create-ne-none : (m : MapHandle) → constmap_create (some m) ≢ none
    pub constbuffer_create-ne-none :
        (bytes : List ℕ) (n : ℕ) → n ≤ length bytes → constbuffer_create (some bytes) n ≢ none
