-- ===== src/Identity/Publishing.antt =====
-- publish_with_new_properties and the republishing of modules/identitymap/src/identitymap.c: what is
-- published, and that all it took is given back.
use azure_iot_gateway_sdk.Base.{
  ℕ, ◌<◌, ◌≡◌, refl, ap, subst, inl, inr, Option, some, none, Bool-cases, Option-cases, arith,
}
use azure_iot_gateway_sdk.Base.Outcome.{Outcome, ok, fail, fault}
use azure_iot_gateway_sdk.Message.Shared.{
  SharedLib, Ledger, take_map, free_map, take_constmap, free_constmap, take_buffer, free_buffer,
  take_block, free_block,
}
use azure_iot_gateway_sdk.Message.Handle.{
  MessageData, create_from_buffer, get_properties, get_content_handle, destroy,
}
use azure_iot_gateway_sdk.Message.References.{CanClone}
use azure_iot_gateway_sdk.Broker.World.{World}
use azure_iot_gateway_sdk.Broker.Publish.{Published}
use azure_iot_gateway_sdk.Identity.Maps.{MapLib}
use azure_iot_gateway_sdk.Identity.Receive.{
  Held, in_ledger, after, leave_publish_new, publish_new, publish_content,
  publish_with_new_properties, publish_changed, republish_writeable, republish_properties,
  republish,
}

-- What the handler needs of Broker_Publish: for a live message it returns, with the message and what is held
-- as they were. Broker.Frames proves this of the broker for a message whose frame fits an `int32_t`.
pub record Publishes (s : SharedLib)
    (publish : Option (MessageData s) → Ledger → World → Outcome (Published s)) : Type 0 where
  pub published : MessageData s → Ledger → World → Published s
  pub publish-published :
      (m : MessageData s) (l : Ledger) (w : World)
      → 0 < m.refs
      → publish (some m) l w ≡ ok (published m l w)
  pub message_kept :
      (m : MessageData s) (l : Ledger) (w : World) → (published m l w).message ≡ some m
  pub ledger_kept : (m : MessageData s) (l : Ledger) (w : World) → (published m l w).ledger ≡ l
  pub memory_kept :
      (m : MessageData s) (l : Ledger) (w : World) → (published m l w).world.memory ≡ w.memory

module _ (s : SharedLib) where
  -- The routine returns with the ledger `l` and `n` blocks of memory, and a message that it published
  -- satisfies `P`.
  abbrev pub Returns :
      (MessageData s → Type 0) → Ledger → ℕ → Outcome (Option (MessageData s) × Held) → Type 0
  Returns P l n (ok (none, h)) = (h.ledger ≡ l) × (h.world.memory ≡ n)
  Returns P l n (ok (some m, h)) = (h.ledger ≡ l) × (h.world.memory ≡ n) × P m
  Returns P l n fail = ⊥
  Returns P l n fault = ⊥

  pub Returns-after :
      (P Q : MessageData s → Type 0) (l : Ledger) (n : ℕ) (f : Ledger → Ledger)
      (r : Outcome (Option (MessageData s) × Held))
      → Returns P l n r
      → ((m : MessageData s) → P m → Q m)
      → Returns Q (f l) n (after (in_ledger f) r)
  Returns-after P Q l n f (ok (none, h)) k q = (ap f k.0, k.1)
  Returns-after P Q l n f (ok (some m, h)) k q = (ap f k.0, k.1, q m k.2)
  Returns-after P Q l n f fail k q = k
  Returns-after P Q l n f fault k q = k

  free_buffer-take_buffer : (l : Ledger) → free_buffer (take_buffer l) ≡ l
  free_buffer-take_buffer l = ground arith

  free_map-take_map : (l : Ledger) → free_map (take_map l) ≡ l
  free_map-take_map l = ground arith

  pub free_constmap-take_constmap : (l : Ledger) → free_constmap (take_constmap l) ≡ l
  free_constmap-take_constmap l = ground arith

  module _ (publish : Option (MessageData s) → Ledger → World → Outcome (Published s))
      (clones : CanClone s) (lib : MapLib s) (broker : Publishes s publish) where
    -- The message that publish_content makes.
    abbrev IsNew : s.MapHandle → s.ConstBuffer → MessageData s → Type 0
    IsNew properties content new =
        (new.content ≡ content) × (s.constmap_create (some properties) ≡ some new.properties)

    -- What Message_CreateFromBuffer makes of them.
    abbrev MadeNew : s.MapHandle → s.ConstBuffer → Ledger → Option (MessageData s) × Ledger → Type 0
    MadeNew properties content l (none, l') = l' ≡ l
    MadeNew properties content l (some new, l') =
        (l' ≡ take_constmap (take_buffer (take_block l)))
        × (new.refs ≡ 1)
        × IsNew properties content new

    create_from_buffer-MadeNew :
        (properties : s.MapHandle) (content : s.ConstBuffer) (l : Ledger)
        → MadeNew properties content l (
            create_from_buffer s
              (some (record { source_content = some content; source_properties = some properties }))
              l)
    unfolding create_from_buffer
    create_from_buffer-MadeNew properties content l = elim (Bool-cases s.malloc_message) [
      | inr failed ↦ rw failed refl
      | inl made ↦
          rw (made, clones.constbuffer_clone_same content)
            (elim (Option-cases (s.constmap_create (some properties))) [
              | inl failed ↦ rw failed (ground arith)
              | inr (c, made') ↦ rw made' (refl, refl, (refl, made'))
            ])
    ]

    destroy_last :
        (m : MessageData s) (l : Ledger)
        → m.refs ≡ 1
        → destroy s (some m) l ≡ (none, free_block (free_buffer (free_constmap l)))
    unfolding destroy
    destroy_last m l one = ground arith

    publish_new-Returns :
        (properties : s.MapHandle) (content : s.ConstBuffer) (l : Ledger) (w : World)
        (made : Option (MessageData s) × Ledger)
        → MadeNew properties content l made
        → Returns
            (IsNew properties content)
            l
            w.memory
            (publish_new s lib publish made.0 (record { ledger = made.1; world = w }))
    unfolding publish_new leave_publish_new
    publish_new-Returns properties content l w (none, l') h = (h, refl)
    publish_new-Returns properties content l w (some new, l') (h, one, is_new) =
        rw
          (
            broker.publish-published new l' w (omega arith),
            broker.message_kept new l' w,
            broker.ledger_kept new l' w,
            destroy_last new l' one,
          )
          (ground arith, broker.memory_kept new l' w, is_new)

    publish_content-Returns :
        (properties : s.MapHandle) (content : s.ConstBuffer) (h : Held)
        → Returns
            (IsNew properties content)
            (free_buffer h.ledger)
            h.world.memory
            (publish_content s lib publish properties (some content) h)
    unfolding publish_content
    publish_content-Returns properties content h =
        let made =
          create_from_buffer s
            (some (record { source_content = some content; source_properties = some properties }))
            h.ledger in
        Returns-after (IsNew properties content) (IsNew properties content) h.ledger h.world.memory
          free_buffer (publish_new s lib publish made.0 (record h { ledger = made.1 }))
          (publish_new-Returns properties content h.ledger h.world made
            (create_from_buffer-MadeNew properties content h.ledger))
          (λ m new. new)

    publish_with_new_properties-Returns :
        (properties : s.MapHandle) (message : MessageData s) (h : Held)
        → Returns
            (IsNew properties message.content)
            h.ledger
            h.world.memory
            (publish_with_new_properties s lib publish properties message h)
    unfolding publish_with_new_properties get_content_handle
    publish_with_new_properties-Returns properties message h =
        rw (clones.constbuffer_clone_same message.content) (
          subst
            (λ l. Returns (IsNew properties message.content) l h.world.memory (
              publish_content s lib publish properties (some message.content)
                (record h { ledger = take_buffer h.ledger })))
            (free_buffer-take_buffer h.ledger)
            (publish_content-Returns properties message.content
              (record h { ledger = take_buffer h.ledger })))

    module _ (change : s.MapHandle → Option s.MapHandle) (message : MessageData s) where
      -- The content of the message, and its properties as they are changed.
      abbrev pub IsChanged : MessageData s → Type 0
      IsChanged new =
          (new.content ≡ message.content)
          × ((m m' : s.MapHandle) × (lib.constmap_clone_writeable message.properties ≡ some m)
              × (change m ≡ some m')
              × (s.constmap_create (some m') ≡ some new.properties))

      publish_changed-Returns :
          (m : s.MapHandle) (changed : Option s.MapHandle) (h : Held)
          → lib.constmap_clone_writeable message.properties ≡ some m
          → change m ≡ changed
          → Returns IsChanged
              (free_map h.ledger)
              h.world.memory
              (after (in_ledger free_map) (publish_changed s lib publish changed message h))
      unfolding publish_changed
      publish_changed-Returns m none h cloned e = (refl, refl)
      publish_changed-Returns m (some m') h cloned e =
          Returns-after (IsNew m' message.content) IsChanged h.ledger h.world.memory free_map
            (publish_with_new_properties s lib publish m' message h)
            (publish_with_new_properties-Returns m' message h)
            (λ new is_new. (is_new.0, (m, m', cloned, e, is_new.1)))

      republish_writeable-Returns :
          (o : Option s.MapHandle) (h : Held)
          → lib.constmap_clone_writeable message.properties ≡ o
          → Returns IsChanged h.ledger h.world.memory
              (republish_writeable s lib publish change message o h)
      unfolding republish_writeable
      republish_writeable-Returns none h cloned = (refl, refl)
      republish_writeable-Returns (some m) h cloned =
          subst
            (λ l. Returns IsChanged l h.world.memory (
              after (in_ledger free_map)
                (publish_changed s lib publish (change m) message (in_ledger take_map h))))
            (free_map-take_map h.ledger)
            (publish_changed-Returns m (change m) (in_ledger take_map h) cloned refl)

      -- IdentityMap_RepublishD2C and IdentityMap_RepublishC2D.
      pub republish-Returns :
          (h : Held)
          → Returns IsChanged h.ledger h.world.memory (republish s lib publish change message h)
      unfolding republish republish_properties get_properties
      republish-Returns h =
          let h' : Held = record h { ledger = take_constmap h.ledger } in
          let c = message.properties in
          rw (clones.constmap_clone_same c) (
            subst
              (λ l. Returns IsChanged l h.world.memory (
                after (in_ledger free_constmap) (
                  republish_writeable s lib publish change message (lib.constmap_clone_writeable c)
                    h')))
              (free_constmap-take_constmap h.ledger)
              (Returns-after IsChanged IsChanged h'.ledger h.world.memory free_constmap
                (republish_writeable s lib publish change message (lib.constmap_clone_writeable c)
                  h')
                (republish_writeable-Returns (lib.constmap_clone_writeable c) h' refl)
                (λ m new. new)))
