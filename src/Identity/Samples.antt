-- ===== src/Identity/Samples.antt =====
-- Maps and a broker as modules/identitymap/src/identitymap.c relies on them, and a small configuration.
use azure_iot_gateway_sdk.Base.{
  ◌≡◌, ◌≢◌, refl, sym, ap, inl, inr, false, Option, some, none, List, [], ◌∷◌, Bool-cases,
  Option-cases, some_of_ne, if◌then◌else◌,
}
use azure_iot_gateway_sdk.Base.Outcome.{Outcome, ok}
use azure_iot_gateway_sdk.Message.Shared.{Ledger, Text, Property}
use azure_iot_gateway_sdk.Message.Handle.{MessageData}
use azure_iot_gateway_sdk.Message.Samples.{list_lib}
use azure_iot_gateway_sdk.Broker.World.{World}
use azure_iot_gateway_sdk.Broker.State.{broker_ok, broker_invalidarg}
use azure_iot_gateway_sdk.Broker.Publish.{Published}
use azure_iot_gateway_sdk.Gateway.State.{strcmp_eq}
use azure_iot_gateway_sdk.Gateway.Search.{strcmp_eq_refl, strcmp_eq→eq}
use azure_iot_gateway_sdk.Identity.Maps.{
  MapResult, map_invalidarg, map_ok, map_keynotfound, MapLib, MapLaws,
}
use azure_iot_gateway_sdk.Identity.Publishing.{Publishes}
use azure_iot_gateway_sdk.Identity.Capable.{NeverFails}

-- The first value of a key counts.
unfoldable pub look_up : List Property → Text → Option Text
look_up [] k = none
look_up ((j, v) ∷ m) k = let rest = look_up m k in if strcmp_eq j k then some v else rest

unfoldable pub remove : List Property → Text → List Property
remove [] k = []
remove ((j, v) ∷ m) k = let rest = remove m k in if strcmp_eq j k then rest else (j, v) ∷ rest

abbrev delete_found : List Property → Text → Option Text → MapResult (List Property)
delete_found m k none = map_keynotfound
delete_found m k (some v) = map_ok (remove m k)

unfoldable pub delete_key : List Property → Text → MapResult (List Property)
delete_key m k = delete_found m k (look_up m k)

abbrev pub list_maps : MapLib list_lib
list_maps = record {
  constmap_get_value = look_up;
  constmap_clone_writeable = λ c. some c;
  map_add_or_update = λ m k v. some ((k, v) ∷ m);
  map_delete = delete_key;
}

miss : (a b : Text) → b ≢ a → strcmp_eq a b ≡ false
miss a b ne = elim (Bool-cases (strcmp_eq a b)) [
  | inl hit ↦ absurd (ne (sym (strcmp_eq→eq a b hit)))
  | inr missed ↦ missed
]

look_up-remove : (m : List Property) (k : Text) → look_up (remove m k) k ≡ none
unfolding look_up remove
look_up-remove [] k = refl
look_up-remove ((j, v) ∷ m) k = elim (Bool-cases (strcmp_eq j k)) [
  | inl hit ↦ rw hit (look_up-remove m k)
  | inr missed ↦ rw (missed, missed) (look_up-remove m k)
]

look_up-remove_other :
    (m : List Property) (k other : Text) → other ≢ k → look_up (remove m k) other ≡ look_up m other
unfolding look_up remove
look_up-remove_other [] k other ne = refl
look_up-remove_other ((j, v) ∷ m) k other ne = elim (Bool-cases (strcmp_eq j k)) [
  | inl hit ↦
      let same : j ≡ k = strcmp_eq→eq j k hit in
      rw (hit, same, miss k other ne) (look_up-remove_other m k other ne)
  | inr missed ↦
      rw missed (
        ap (λ rest. if strcmp_eq j other then some v else rest) (look_up-remove_other m k other ne))
]

delete_found-ok :
    (m m' : List Property) (k : Text) (o : Option Text)
    → delete_found m k o ≡ map_ok m'
    → m' ≡ remove m k
delete_found-ok m m' k none h = absurd cc
delete_found-ok m m' k (some v) h = cc

delete_found-missing :
    (m : List Property) (k : Text) (o : Option Text)
    → delete_found m k o ≡ map_keynotfound
    → o ≡ none
delete_found-missing m k none h = refl
delete_found-missing m k (some v) h = absurd cc

value_update :
    (m m' : List Property) (k v : Text) → some ((k, v) ∷ m) ≡ some m' → look_up m' k ≡ some v
unfolding look_up
value_update m m' k v h = let same : (k, v) ∷ m ≡ m' = cc in rw (← same, strcmp_eq_refl k) refl

value_update_other :
    (m m' : List Property) (k v other : Text)
    → some ((k, v) ∷ m) ≡ some m'
    → other ≢ k
    → look_up m' other ≡ look_up m other
unfolding look_up
value_update_other m m' k v other h ne =
    let same : (k, v) ∷ m ≡ m' = cc in rw (← same, miss k other ne) refl

value_delete : (m m' : List Property) (k : Text) → delete_key m k ≡ map_ok m' → look_up m' k ≡ none
unfolding delete_key
value_delete m m' k h = rw (delete_found-ok m m' k (look_up m k) h) (look_up-remove m k)

value_delete_other :
    (m m' : List Property) (k other : Text)
    → delete_key m k ≡ map_ok m'
    → other ≢ k
    → look_up m' other ≡ look_up m other
unfolding delete_key
value_delete_other m m' k other h ne =
    rw (delete_found-ok m m' k (look_up m k) h) (look_up-remove_other m k other ne)

value_missing :
    (m : List Property) (k : Text) → delete_key m k ≡ map_keynotfound → look_up m k ≡ none
unfolding delete_key
value_missing m k h = delete_found-missing m k (look_up m k) h

value_copy : (m m' : List Property) (k : Text) → some m ≡ some m' → look_up m' k ≡ look_up m k
value_copy m m' k h = let same : m ≡ m' = cc in rw same refl

pub list_maps-laws : MapLaws list_lib list_maps
list_maps-laws = record {
  value = look_up;
  value-clone_writeable = value_copy;
  value-add_or_update = value_update;
  value-add_or_update_other = value_update_other;
  value-delete = value_delete;
  value-delete_other = value_delete_other;
  value-delete_missing = value_missing;
  value-constmap_create = value_copy;
}

-- A broker that returns at once.
abbrev pub returned : MessageData list_lib → Ledger → World → Published list_lib
returned m l w = record { result = broker_ok; message = some m; ledger = l; world = w }

unfoldable pub publish :
    Option (MessageData list_lib) → Ledger → World → Outcome (Published list_lib)
publish none l w = ok (record { result = broker_invalidarg; message = none; ledger = l; world = w })
publish (some m) l w = ok (returned m l w)

pub publish-Publishes : Publishes list_lib publish
unfolding publish
publish-Publishes = record {
  published = returned;
  publish-published = λ m l w h. refl;
  message_kept = λ m l w. refl;
  ledger_kept = λ m l w. refl;
  memory_kept = λ m l w. refl;
}

delete_held :
    (m : List Property) (k : Text)
    → look_up m k ≢ none
    → (m' : List Property) × (delete_key m k ≡ map_ok m')
unfolding delete_key
delete_held m k there = let (v, e) = some_of_ne (look_up m k) there in (remove m k, rw e refl)

delete-ne-invalidarg : (m : List Property) (k : Text) → delete_key m k ≢ map_invalidarg
unfolding delete_key
delete-ne-invalidarg m k = elim (Option-cases (look_up m k)) [
  | inl missing ↦ rw missing (λ h. cc)
  | inr (v, there) ↦ rw there (λ h. cc)
]

pub list_maps-NeverFails : NeverFails list_lib list_maps list_maps-laws
unfolding list_maps-laws
list_maps-NeverFails = record {
  malloc_message_true = refl;
  constmap_create-ne-none = λ m h. cc;
  clone_writeable-ne-none = λ c h. cc;
  add_or_update-ne-none = λ m k v h. cc;
  delete_held = delete_held;
  delete-ne-invalidarg = delete-ne-invalidarg;
}
