-- ===== src/Message/Handle.antt =====
-- core/src/message.c: Message_CreateImpl, Message_Create, Message_CreateFromBuffer, Message_Clone,
-- Message_GetProperties, Message_GetContent, Message_GetContentHandle and Message_Destroy.
use azure_iot_gateway_sdk.Base.{
  ℕ, ◌+◌, ◌-◌, Bool, true, false, Option, some, none, List, ltb, ◌==◌, if◌then◌else◌,
}
use azure_iot_gateway_sdk.Message.Shared.{
  SharedLib, Ledger, take_block, free_block, take_constmap, free_constmap, take_buffer, free_buffer,
}

-- MESSAGE_HANDLE_DATA with the count that refcount.h puts beside it.
pub record MessageData (s : SharedLib) : Type 0 where
  pub refs : ℕ
  pub properties : s.ConstMap
  pub content : s.ConstBuffer

-- MESSAGE_CONFIG; `none` is a null pointer.
pub record MessageConfig (s : SharedLib) : Type 0 where
  pub size : ℕ
  pub source : Option (List ℕ)
  pub source_properties : Option s.MapHandle

-- MESSAGE_BUFFER_CONFIG
pub record MessageBufferConfig (s : SharedLib) : Type 0 where
  pub source_content : Option s.ConstBuffer
  pub source_properties : Option s.MapHandle

module _ (s : SharedLib) where
  -- The last step of both constructors: the properties, with the content in hand.
  with_properties : Option s.MapHandle → s.ConstBuffer → Ledger → Option (MessageData s) × Ledger
  with_properties props b l = elim (s.constmap_create props) [
    | none ↦ (none, free_block (free_buffer l))
    | some c ↦ (some (record { refs = 1; properties = c; content = b }), take_constmap l)
  ]

  with_content :
      Option s.MapHandle → Option s.ConstBuffer → Ledger → Option (MessageData s) × Ledger
  unfolding with_properties
  with_content props none l = (none, free_block l)
  with_content props (some b) l = with_properties props b (take_buffer l)

  unfoldable pub create_impl : MessageConfig s → Ledger → Option (MessageData s) × Ledger
  unfolding with_content
  create_impl cfg l =
      if s.malloc_message
      then with_content cfg.source_properties (s.constbuffer_create cfg.source cfg.size)
          (take_block l)
      else (none, l)

  abbrev is_null {ℓ} : {A : Type ℓ} → Option A → Bool
  is_null none = true
  is_null (some a) = false

  unfoldable pub create : Option (MessageConfig s) → Ledger → Option (MessageData s) × Ledger
  unfolding create_impl
  create none l = (none, l)
  create (some cfg) l = elim (ltb 0 cfg.size) [
    | true ↦ elim (is_null cfg.source) [ true ↦ (none, l) | false ↦ create_impl cfg l ]
    | false ↦ create_impl cfg l
  ]

  clone_content : Option s.MapHandle → s.ConstBuffer → Ledger → Option (MessageData s) × Ledger
  unfolding with_content
  clone_content props b l =
      if s.malloc_message
      then with_content props (s.constbuffer_clone b) (take_block l)
      else (none, l)

  from_parts : Option s.ConstBuffer → Option s.MapHandle → Ledger → Option (MessageData s) × Ledger
  unfolding clone_content
  from_parts none props l = (none, l)
  from_parts (some b) none l = (none, l)
  from_parts (some b) (some m) l = clone_content (some m) b l

  unfoldable pub create_from_buffer :
      Option (MessageBufferConfig s) → Ledger → Option (MessageData s) × Ledger
  unfolding from_parts
  create_from_buffer none l = (none, l)
  create_from_buffer (some cfg) l = from_parts cfg.source_content cfg.source_properties l

  -- A clone that the library refuses leaves its reference count alone.
  count_constmap : Option s.ConstMap → Ledger → Ledger
  count_constmap none l = l
  count_constmap (some c) l = take_constmap l

  count_buffer : Option s.ConstBuffer → Ledger → Ledger
  count_buffer none l = l
  count_buffer (some b) l = take_buffer l

  -- The handle that is returned is the one that was given: one object, with one more reference.
  unfoldable pub clone : Option (MessageData s) → Ledger → Option (MessageData s) × Ledger
  unfolding count_constmap count_buffer
  clone none l = (none, l)
  clone (some m) l = (
    some (record m { refs = m.refs + 1 }),
    count_buffer (s.constbuffer_clone m.content) (count_constmap (s.constmap_clone m.properties) l),
  )

  unfoldable pub get_properties : Option (MessageData s) → Ledger → Option s.ConstMap × Ledger
  unfolding count_constmap
  get_properties none l = (none, l)
  get_properties (some m) l = let c = s.constmap_clone m.properties in (c, count_constmap c l)

  unfoldable pub get_content : Option (MessageData s) → Option (List ℕ)
  get_content none = none
  get_content (some m) = some (s.constbuffer_get_content m.content)

  unfoldable pub get_content_handle :
      Option (MessageData s) → Ledger → Option s.ConstBuffer × Ledger
  unfolding count_buffer
  get_content_handle none l = (none, l)
  get_content_handle (some m) l = let b = s.constbuffer_clone m.content in (b, count_buffer b l)

  -- `none` in the result: the memory of the message is free.
  unfoldable pub destroy : Option (MessageData s) → Ledger → Option (MessageData s) × Ledger
  destroy none l = (none, l)
  destroy (some m) l =
      let l' = free_buffer (free_constmap l) in
      if m.refs - 1 == 0 then (none, free_block l') else (some (record m { refs = m.refs - 1 }), l')
