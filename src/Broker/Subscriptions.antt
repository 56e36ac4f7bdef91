-- ===== src/Broker/Subscriptions.antt =====
-- Broker_AddLink and Broker_RemoveLink of core/src/broker.c: how many subscriptions to which topic each
-- module's socket has.
use azure_iot_gateway_sdk.Base.{
  ℕ, ◌+◌, ◌-◌, ◌≡◌, ◌≢◌, refl, sym, subst, ap, Option, some, none, map, some_of_ne, arith,
}
use azure_iot_gateway_sdk.Broker.World.{World}
use azure_iot_gateway_sdk.Broker.State.{
  BrokerResult, broker_ok, broker_error, broker_add_link_error, broker_remove_link_error,
  broker_invalidarg, ModuleInfo, Topic, Broker, LinkData, list_find, list_update,
}
use azure_iot_gateway_sdk.Broker.Links.{
  handle_bytes, subscribe, unsubscribe, broker_add_link, broker_remove_link,
}
use azure_iot_gateway_sdk.Broker.Resources.{Unchanged}
use azure_iot_gateway_sdk.Broker.Routing.{eq_topic_refl, Linked, broker_link-Linked}
use azure_iot_gateway_sdk.Broker.Occurrences.{
  occurrences, occurrences_of, subscriptions, identity_of, eq_topic_other, occurrences-drop_topic,
  occurrences-drop_other, list_find-list_update, list_find-list_update_other,
  identities-list_update,
}

-- What a call that changes links may do: an error changes nothing, and on success both modules are
-- attached, `Count` relates the sink's subscriptions to the bytes of the source's handle before and
-- after, and every other subscription and all else of the broker are as before.
unfoldable pub Subscribed :
    (Count : ℕ → ℕ → Type 0)
    → World
    → BrokerResult
    → Broker
    → LinkData
    → (BrokerResult × Option Broker) × World
    → Type 0
Subscribed Count w error b link ((result, none), w') = ⊥
Subscribed Count w error b link ((broker_ok, some b'), w') =
    let sink = link.module_sink_handle in
    let topic = handle_bytes link.module_source_handle in
    (list_find sink b.modules ≢ none)
    × (list_find link.module_source_handle b.modules ≢ none)
    × Count (subscriptions b sink topic) (subscriptions b' sink topic)
    × ((t : Topic) → t ≢ topic → subscriptions b' sink t ≡ subscriptions b sink t)
    × ((h : ℕ) (t : Topic) → h ≢ sink → subscriptions b' h t ≡ subscriptions b h t)
    × (map identity_of b'.modules ≡ map identity_of b.modules)
    × (b'.refs ≡ b.refs)
    × (b'.url ≡ b.url)
    × Unchanged w w'
Subscribed Count w error b link ((result, some b'), w') =
    (result ≡ error) × (b' ≡ b) × Unchanged w w'

module _ (Count : ℕ → ℕ → Type 0) (change : Topic → ModuleInfo → ModuleInfo)
    (same : (t : Topic) (info : ModuleInfo) → identity_of (change t info) ≡ identity_of info)
    (counts : (t : Topic) (info : ModuleInfo)
      → Count (occurrences t info.topics) (occurrences t (change t info).topics))
    (others : (t other : Topic) (info : ModuleInfo)
      → other ≢ t
      → occurrences other (change t info).topics ≡ occurrences other info.topics) where
  changed-Subscribed :
      (w w' : World) (error : BrokerResult) (b : Broker) (link : LinkData)
      → list_find link.module_sink_handle b.modules ≢ none
      → list_find link.module_source_handle b.modules ≢ none
      → Unchanged w w'
      → Subscribed Count w error b link (
        (
          broker_ok,
          some (record b {
            modules =
                list_update link.module_sink_handle
                  (change (handle_bytes link.module_source_handle))
                  b.modules;
          }),
        ),
        w',
      )
  unfolding Subscribed occurrences_of
  changed-Subscribed w w' error b link sink_there source_there unchanged =
      let sink = link.module_sink_handle in
      let topic = handle_bytes link.module_source_handle in
      let (info, found) = some_of_ne (list_find sink b.modules) sink_there in
      let found' = list_find-list_update sink (change topic) (same topic) b.modules info found in
      (
        sink_there,
        source_there,
        rw (found, found') (counts topic info),
        (λ t ne. rw (found, found') (others topic t info ne)),
        (λ h t ne.
            ap (occurrences_of t)
              (list_find-list_update_other sink (change topic) (same topic) b.modules h ne)),
        identities-list_update sink (change topic) (same topic) b.modules,
        refl,
        refl,
        unchanged,
      )

  linked-Subscribed :
      (w : World) (error : BrokerResult) (b : Broker) (link : LinkData)
      (r : (BrokerResult × Option Broker) × World)
      → Linked w error change b link r
      → Subscribed Count w error b link r
  unfolding Subscribed
  linked-Subscribed w error b link ((broker_ok, b'), w') (e, sink_there, source_there, unchanged) =
      subst (λ x. Subscribed Count w error b link ((broker_ok, x), w')) (sym e)
        (changed-Subscribed w w' error b link sink_there source_there unchanged)
  linked-Subscribed w error b link ((broker_error, b'), w') (e, kept, unchanged) =
      subst (λ x. Subscribed Count w error b link ((broker_error, x), w')) (sym kept)
        (e, refl, unchanged)
  linked-Subscribed w error b link ((broker_add_link_error, b'), w') (e, kept, unchanged) =
      subst (λ x. Subscribed Count w error b link ((broker_add_link_error, x), w')) (sym kept)
        (e, refl, unchanged)
  linked-Subscribed w error b link ((broker_remove_link_error, b'), w') (e, kept, unchanged) =
      subst (λ x. Subscribed Count w error b link ((broker_remove_link_error, x), w')) (sym kept)
        (e, refl, unchanged)
  linked-Subscribed w error b link ((broker_invalidarg, b'), w') (e, kept, unchanged) =
      subst (λ x. Subscribed Count w error b link ((broker_invalidarg, x), w')) (sym kept)
        (e, refl, unchanged)

-- One more, and one less, if there is one.
abbrev pub OneMore : ℕ → ℕ → Type 0
OneMore before after = after ≡ before + 1

abbrev pub OneLess : ℕ → ℕ → Type 0
OneLess before after = after ≡ before - 1

subscribe-OneMore :
    (t : Topic) (info : ModuleInfo)
    → OneMore (occurrences t info.topics) (occurrences t (subscribe t info).topics)
unfolding subscribe occurrences
subscribe-OneMore t info = simp (eq_topic_refl t) (omega arith)

subscribe_others :
    (t other : Topic) (info : ModuleInfo)
    → other ≢ t
    → occurrences other (subscribe t info).topics ≡ occurrences other info.topics
unfolding subscribe occurrences
subscribe_others t other info ne = simp (eq_topic_other other t ne) (omega arith)

unsubscribe-OneLess :
    (t : Topic) (info : ModuleInfo)
    → OneLess (occurrences t info.topics) (occurrences t (unsubscribe t info).topics)
unfolding unsubscribe
unsubscribe-OneLess t info = occurrences-drop_topic t info.topics

unsubscribe_others :
    (t other : Topic) (info : ModuleInfo)
    → other ≢ t
    → occurrences other (unsubscribe t info).topics ≡ occurrences other info.topics
unfolding unsubscribe
unsubscribe_others t other info ne = occurrences-drop_other t other info.topics ne

-- Broker_AddLink and Broker_RemoveLink of a broker, with handles that are not NULL, return an error with
-- the broker as it was, or BROKER_OK. Then the sink and the source are attached, and the sink's socket
-- has one subscription more to the bytes of the source's handle after Broker_AddLink, and one less, if it
-- had any, after Broker_RemoveLink. Every other topic has as many subscriptions of the sink as before,
-- every other module has the subscriptions that it had, the modules and their quit signals are the
-- same, and nothing is taken or given back.
pub broker_link-Subscribed :
    (w : World) (b : Broker) (link : LinkData)
    → link.module_sink_handle ≢ 0
    → link.module_source_handle ≢ 0
    → Subscribed OneMore w broker_add_link_error b link (broker_add_link (some b) (some link) w)
      × Subscribed OneLess w broker_remove_link_error b link
          (broker_remove_link (some b) (some link) w)
broker_link-Subscribed w b link hs hk =
    let (added, removed) = broker_link-Linked w b link hs hk in
    (
      linked-Subscribed OneMore subscribe (λ t info. unfold subscribe in refl) subscribe-OneMore
          subscribe_others w broker_add_link_error b link _ added,
      linked-Subscribed OneLess unsubscribe (λ t info. unfold unsubscribe in refl)
          unsubscribe-OneLess unsubscribe_others w broker_remove_link_error b link _ removed,
    )
