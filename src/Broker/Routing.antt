-- ===== src/Broker/Routing.antt =====
-- Broker_AddLink and Broker_RemoveLink of core/src/broker.c: which subscriptions they change.
use azure_iot_gateway_sdk.Base.{
  ℕ, ◌+◌, ◌≡◌, ◌≢◌, refl, ap, ◌∙◌, subst, inl, inr, true, false, Option, some, none, List, [], ◌∷◌,
  ◌==◌, ◌||◌, Bool-cases, Option-cases, arith,
}
use azure_iot_gateway_sdk.Broker.World.{World}
use azure_iot_gateway_sdk.Broker.State.{
  BrokerResult, broker_ok, broker_error, broker_add_link_error, broker_remove_link_error,
  broker_invalidarg, ModuleInfo, Topic, Broker, LinkData, list_find, list_update,
  find_module_predicate, broker_locate_handle,
}
use azure_iot_gateway_sdk.Broker.Links.{
  handle_bytes, eq_topic, drop_topic, subscribe, unsubscribe, locate_both, change_link,
  broker_add_link, broker_remove_link,
}
use azure_iot_gateway_sdk.Broker.Resources.{Unchanged}

pub eq_topic_refl : (t : Topic) → eq_topic t t ≡ true
unfolding eq_topic
eq_topic_refl [] = refl
eq_topic_refl (b ∷ bs) = ground (arith, eq_topic_refl bs)

pub eq_topic→eq : (t u : Topic) → eq_topic t u ≡ true → t ≡ u
unfolding eq_topic
eq_topic→eq [] [] h = refl
eq_topic→eq [] (b ∷ bs) h = cc
eq_topic→eq (a ∷ as') [] h = cc
eq_topic→eq (a ∷ as') (b ∷ bs) h = ground (arith, eq_topic→eq as' bs)

unsubscribe-subscribe : (t : Topic) (info : ModuleInfo) → unsubscribe t (subscribe t info) ≡ info
unfolding subscribe unsubscribe drop_topic
unsubscribe-subscribe t info = rw (eq_topic_refl t)

list_update-list_update :
    (h : ℕ) (f g : ModuleInfo → ModuleInfo) (ms : List ModuleInfo)
    → ((info : ModuleInfo) → (f info).module_data ≡ info.module_data)
    → ((info : ModuleInfo) → g (f info) ≡ info)
    → list_update h g (list_update h f ms) ≡ ms
unfolding list_update find_module_predicate
list_update-list_update h f g [] same undo = refl
list_update-list_update h f g (m ∷ ms) same undo =
    ground (arith, same m, undo m, list_update-list_update h f g ms same undo)

-- What either function does: the sink's subscriptions change, or nothing does.
abbrev pub Linked :
    World
    → BrokerResult
    → (Topic → ModuleInfo → ModuleInfo)
    → Broker
    → LinkData
    → (BrokerResult × Option Broker) × World
    → Type 0
Linked w error change b link ((broker_ok, b'), w') =
    (b'
      ≡ some (record b {
        modules =
            list_update link.module_sink_handle (change (handle_bytes link.module_source_handle))
              b.modules;
      }))
    × (list_find link.module_sink_handle b.modules ≢ none)
    × (list_find link.module_source_handle b.modules ≢ none)
    × Unchanged w w'
Linked w error change b link ((result, b'), w') = (result ≡ error) × (b' ≡ some b) × Unchanged w w'

kept :
    (w : World) (error : BrokerResult) (change : Topic → ModuleInfo → ModuleInfo) (b : Broker)
    (link : LinkData) (w' : World)
    → error ≢ broker_ok
    → Unchanged w w'
    → Linked w error change b link ((error, some b), w')
kept w broker_ok change b link w' h same = absurd (h refl)
kept w broker_error change b link w' h same = (refl, refl, same)
kept w broker_add_link_error change b link w' h same = (refl, refl, same)
kept w broker_remove_link_error change b link w' h same = (refl, refl, same)
kept w broker_invalidarg change b link w' h same = (refl, refl, same)

change_link-Linked :
    (w : World) (error : BrokerResult) (change : Topic → ModuleInfo → ModuleInfo) (b : Broker)
    (link : LinkData)
    → error ≢ broker_ok
    → link.module_sink_handle ≢ 0
    → link.module_source_handle ≢ 0
    → Linked w error change b link (change_link error change (some b) (some link) w)
unfolding change_link locate_both broker_locate_handle
change_link-Linked w error change b link not_ok hs hk =
    let sink = link.module_sink_handle in
    let source = link.module_source_handle in
    let valid : ((sink == 0) || (source == 0)) ≡ false = ground arith in
    rw valid (elim (Bool-cases (w.oracle w.calls)) [
      | inr e ↦ rw e (kept w error change b link _ not_ok (ground arith))
      | inl e ↦ rw e (elim (Option-cases (list_find sink b.modules)) [
        | inl e1 ↦ rw (e1, locate_both) (kept w error change b link _ not_ok (ground arith))
        | inr (info, e1) ↦
            rw (e1, locate_both)
              (elim (Option-cases (list_find source b.modules)) [
                | inl e2 ↦ rw (e2, locate_both) (kept w error change b link _ not_ok (ground arith))
                | inr (other, e2) ↦
                    rw (e2, locate_both)
                      (elim (Bool-cases (w.oracle (w.calls + 1))) [
                        | inr e3 ↦ rw e3 (kept w error change b link _ not_ok (ground arith))
                        | inl e3 ↦ rw e3 (refl, (λ z. cc), (λ z. cc), ground arith)
                      ])
              ])
      ])
    ])

-- Broker_AddLink and Broker_RemoveLink with handles that are not NULL: they return BROKER_OK only
-- if both modules are attached, and then subscribe the socket of the sink to the bytes of the
-- source's handle, or take one such subscription off it; on an error the broker is as it was.
-- Nothing is taken or given back.
pub broker_link-Linked :
    (w : World) (b : Broker) (link : LinkData)
    → link.module_sink_handle ≢ 0
    → link.module_source_handle ≢ 0
    → Linked w broker_add_link_error subscribe b link (broker_add_link (some b) (some link) w)
      × Linked w broker_remove_link_error unsubscribe b link
          (broker_remove_link (some b) (some link) w)
unfolding broker_add_link broker_remove_link
broker_link-Linked w b link hs hk = (
  change_link-Linked w broker_add_link_error subscribe b link (λ e. cc) hs hk,
  change_link-Linked w broker_remove_link_error unsubscribe b link (λ e. cc) hs hk,
)

-- Broker_RemoveLink undoes Broker_AddLink: after both have returned BROKER_OK for handles that are
-- not NULL the broker is the one from before.
pub broker_remove_link-add_link :
    (w w1 w2 : World) (b : Broker) (link : LinkData) (b1 b2 : Option Broker)
    → link.module_sink_handle ≢ 0
    → link.module_source_handle ≢ 0
    → broker_add_link (some b) (some link) w ≡ ((broker_ok, b1), w1)
    → broker_remove_link b1 (some link) w1 ≡ ((broker_ok, b2), w2)
    → b2 ≡ some b
broker_remove_link-add_link w w1 w2 b link b1 b2 hs hk added removed =
    let topic = handle_bytes link.module_source_handle in
    let sink = link.module_sink_handle in
    let (linked, _, _, _) =
      subst (Linked w broker_add_link_error subscribe b link) added
        (broker_link-Linked w b link hs hk).0 in
    let big = record b { modules = list_update sink (subscribe topic) b.modules } in
    let (unlinked, _, _, _) =
      subst (Linked w1 broker_remove_link_error unsubscribe big link) (rw linked at removed)
        (broker_link-Linked w1 big link hs hk).1 in
    unlinked
    ∙ ap (λ (ms : List ModuleInfo). some (record b { modules = ms }))
        (list_update-list_update sink (subscribe topic) (unsubscribe topic) b.modules same undo)
  where
    same :
        (info : ModuleInfo)
        → (subscribe (handle_bytes link.module_source_handle) info).module_data ≡ info.module_data
    same info = unfold subscribe in refl

    undo :
        (info : ModuleInfo)
        → unsubscribe
            (handle_bytes link.module_source_handle)
            (subscribe (handle_bytes link.module_source_handle) info)
          ≡ info
    undo info = unsubscribe-subscribe (handle_bytes link.module_source_handle) info
