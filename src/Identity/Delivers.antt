-- ===== src/Identity/Delivers.antt =====
-- IdentityMap_Receive (modules/identitymap/src/identitymap.c) publishes where nothing fails.
use azure_iot_gateway_sdk.Base.{
  ◌<◌, ◌≡◌, ◌≢◌, refl, sym, ap, ◌∙◌, inl, inr, Option, some, none, List, [], ◌∷◌, Among, All,
  some_of_ne, arith,
}
use Prim.Native.Nat.{Ordering}
use azure_iot_gateway_sdk.Base.Outcome.{Outcome, ok, fail, fault}
use azure_iot_gateway_sdk.Message.Shared.{
  SharedLib, Ledger, Text, take_map, take_constmap, take_buffer, take_block, free_map,
  free_constmap, free_buffer,
}
use azure_iot_gateway_sdk.Message.Handle.{
  MessageData, get_properties, get_content_handle, create_from_buffer,
}
use azure_iot_gateway_sdk.Message.References.{CanClone}
use azure_iot_gateway_sdk.Broker.World.{World}
use azure_iot_gateway_sdk.Broker.Publish.{Published}
use azure_iot_gateway_sdk.Identity.Config.{Mapping}
use azure_iot_gateway_sdk.Identity.Tables.{strcmp, compare_by, IsSorted, TableLib, TableLaws}
use azure_iot_gateway_sdk.Identity.Maps.{MapLib, MapLaws}
use azure_iot_gateway_sdk.Identity.Receive.{
  Held, in_ledger, after, leave_publish_new, publish_new, publish_content,
  publish_with_new_properties, publish_changed, republish_writeable, republish_properties,
  republish,
}
use azure_iot_gateway_sdk.Identity.Publishing.{Publishes}
use azure_iot_gateway_sdk.Identity.Capable.{NeverFails}

-- The routine returns, and it has published a message.
abbrev pub Delivers : (s : SharedLib) → Outcome (Option (MessageData s) × Held) → Type 0
Delivers s (ok (none, h)) = ⊥
Delivers s (ok (some m, h)) = Unit {0}
Delivers s fail = ⊥
Delivers s fault = ⊥

pub Delivers-after :
    (s : SharedLib) (f : Held → Held) (r : Outcome (Option (MessageData s) × Held))
    → Delivers s r
    → Delivers s (after f r)
Delivers-after s f (ok (none, h)) k = k
Delivers-after s f (ok (some m, h)) k = k
Delivers-after s f fail k = k
Delivers-after s f fault k = k

strcmp_refl : (a : Text) → strcmp a a ≡ Ordering.eq
unfolding strcmp
strcmp_refl [] = refl
strcmp_refl (c ∷ cs) = ground (arith, strcmp_refl cs)

-- A sorted table's search finds an entry with the key.
pub bsearch-ne-none :
    (t : TableLib) (laws : TableLaws t) (field : Mapping → Text) (key match : Mapping)
    (table : List Mapping)
    → IsSorted (compare_by field) table
    → Among match table
    → field key ≡ field match
    → t.bsearch key table (compare_by field) ≢ none
bsearch-ne-none t laws field key match table sorted among same missing =
    found table among (laws.bsearch_missing field key table sorted missing)
  where
    found :
        (xs : List Mapping)
        → Among match xs
        → All (λ x. compare_by field key x ≢ Ordering.eq) xs
        → ⊥
    found [] none_there h = elim none_there [ ]
    found (x ∷ xs) (inl here) h =
        h.0 (ap (strcmp (field key)) (ap field (sym here) ∙ sym same) ∙ strcmp_refl (field key))
    found (x ∷ xs) (inr later) h = found xs later h.1

module _ (s : SharedLib) (lib : MapLib s) (laws : MapLaws s lib) (memory : NeverFails s lib laws)
    (clones : CanClone s)
    (publish : Option (MessageData s) → Ledger → World → Outcome (Published s))
    (broker : Publishes s publish) where
  publish_new-Delivers :
      (new : MessageData s) (h : Held)
      → 0 < new.refs
      → Delivers s (publish_new s lib publish (some new) h)
  unfolding publish_new leave_publish_new
  publish_new-Delivers new h alive = rw (broker.publish-published new h.ledger h.world alive) tt

  created :
      (m : s.MapHandle) (content : s.ConstBuffer) (l : Ledger)
      → (new : MessageData s) × (l' : Ledger) × (create_from_buffer s
            (some (record { source_content = some content; source_properties = some m }))
            l
          ≡ (some new, l'))
        × (0 < new.refs)
  unfolding create_from_buffer
  created m content l =
      let (c, made) = some_of_ne (s.constmap_create (some m)) (memory.constmap_create-ne-none m) in
      (
        record { refs = 1; properties = c; content = content },
        take_constmap (take_buffer (take_block l)),
        rw (memory.malloc_message_true, clones.constbuffer_clone_same content) (rw made refl),
        omega arith,
      )

  publish_content-Delivers :
      (m : s.MapHandle) (content : s.ConstBuffer) (h : Held)
      → Delivers s (publish_content s lib publish m (some content) h)
  unfolding publish_content
  publish_content-Delivers m content h =
      let (new, l', made, alive) = created m content h.ledger in
      rw made (
        Delivers-after s (in_ledger free_buffer)
          (publish_new s lib publish (some new) (record h { ledger = l' }))
          (publish_new-Delivers new (record h { ledger = l' }) alive))

  publish_changed-Delivers :
      (m : s.MapHandle) (message : MessageData s) (h : Held)
      → Delivers s (publish_changed s lib publish (some m) message h)
  unfolding publish_changed publish_with_new_properties get_content_handle
  publish_changed-Delivers m message h =
      rw (clones.constbuffer_clone_same message.content)
        (publish_content-Delivers m message.content (record h { ledger = take_buffer h.ledger }))

  pub republish-Delivers :
      (change : s.MapHandle → Option s.MapHandle) (message : MessageData s) (h : Held)
      → ((m : s.MapHandle)
          → lib.constmap_clone_writeable message.properties ≡ some m
          → change m ≢ none)
      → Delivers s (republish s lib publish change message h)
  unfolding republish republish_properties republish_writeable publish_changed
      publish_with_new_properties get_properties get_content_handle
  republish-Delivers change message h changes =
      let (m, cloned) =
        some_of_ne (lib.constmap_clone_writeable message.properties)
          (memory.clone_writeable-ne-none message.properties) in
      let (m', changed) = some_of_ne (change m) (changes m cloned) in
      let h1 : Held = record h { ledger = take_constmap h.ledger } in
      let h2 : Held = in_ledger take_map h1 in
      rw (clones.constmap_clone_same message.properties) (
        Delivers-after s (in_ledger free_constmap)
          (republish_writeable s lib publish change message
            (lib.constmap_clone_writeable message.properties) h1)
          (rw (cloned, republish_writeable)
            (Delivers-after s (in_ledger free_map)
              (publish_changed s lib publish (change m) message h2)
              (rw changed (publish_changed-Delivers m' message h2)))))
