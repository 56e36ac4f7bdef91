-- ===== src/Broker/Listening.antt =====
-- Any history of Broker_AddModule, Broker_RemoveModule, Broker_AddLink and Broker_RemoveLink
-- (core/src/broker.c) keeps every attached module subscribed to its own quit signal.
use azure_iot_gateway_sdk.Base.{
  ℕ, ◌≡◌, refl, ap, ◌∙◌, inl, inr, Option, some, none, List, [], ◌∷◌, length, All, ◌==◌, ◌||◌,
  Bool-cases, arith,
}
use azure_iot_gateway_sdk.Broker.World.{World}
use azure_iot_gateway_sdk.Broker.State.{
  BrokerResult, broker_ok, broker_error, broker_add_link_error, broker_remove_link_error,
  broker_invalidarg, Module, ModuleInfo, Topic, Broker, LinkData, list_find,
}
use azure_iot_gateway_sdk.Broker.Modules.{
  deinit_module, stop_module, detach_stopped, detach_module, broker_add_module,
  broker_remove_module,
}
use azure_iot_gateway_sdk.Broker.Links.{
  handle_bytes, subscribe, unsubscribe, change_link, broker_add_link, broker_remove_link,
}
use azure_iot_gateway_sdk.Broker.Resources.{Created, broker_create-Created}
use azure_iot_gateway_sdk.Broker.Create.{broker_create}
use azure_iot_gateway_sdk.Broker.Attach.{Added, started, broker_add_module-Added}
use azure_iot_gateway_sdk.Broker.Routing.{Linked, broker_link-Linked}
use azure_iot_gateway_sdk.Broker.Topics.{
  Listens, list_remove-All, list_update-All, append-All, unsubscribe-Listens, subscribe-Listens,
}

pub data BrokerCall : Type 0 where
  adds removes : Module → BrokerCall
  links unlinks : LinkData → BrokerCall

unfoldable pub broker_call : BrokerCall → Option Broker × World → Option Broker × World
broker_call (adds m) (b, w) = let r = broker_add_module b (some m) w in (r.0.1, r.1)
broker_call (removes m) (b, w) = let r = broker_remove_module b (some m) w in (r.0.1, r.1)
broker_call (links l) (b, w) = let r = broker_add_link b (some l) w in (r.0.1, r.1)
broker_call (unlinks l) (b, w) = let r = broker_remove_link b (some l) w in (r.0.1, r.1)

pub broker_run : List BrokerCall → Option Broker × World → Option Broker × World
broker_run [] s = s
broker_run (c ∷ cs) s = broker_run cs (broker_call c s)

module _ (guids : ℕ → List ℕ) where
  abbrev pub Listening : Option Broker × World → Type 0
  Listening (none, w) = w.guids ≡ guids
  Listening (some b, w) = (w.guids ≡ guids) × All (Listens guids) b.modules

  module _ (long : (n : ℕ) → length (guids n) ≡ 36) where
    Added-step :
        (w : World) (b : Broker) (m : Module) (r : (BrokerResult × Option Broker) × World)
        → Listening (some b, w)
        → Added w b m r
        → Listening (r.0.1, r.1)
    Added-step w b m ((broker_ok, b'), w') (g, l) (info, _, (n, id), e, held) = rw e (
      held.guids_eq ∙ g,
      append-All guids b.modules (started info) l
          ((n, id ∙ ap (λ (ids : ℕ → List ℕ). ids n) g), inl refl),
    )
    Added-step w b m ((broker_error, b'), w') (g, l) (_, e, held) = rw e (held.guids_eq ∙ g, l)
    Added-step w b m ((broker_add_link_error, b'), w') (g, l) (_, e, held) =
        rw e (held.guids_eq ∙ g, l)
    Added-step w b m ((broker_remove_link_error, b'), w') (g, l) (_, e, held) =
        rw e (held.guids_eq ∙ g, l)
    Added-step w b m ((broker_invalidarg, b'), w') (g, l) (_, e, held) = rw e (held.guids_eq ∙ g, l)

    Linked-step :
        (w : World) (error : BrokerResult) (change : Topic → ModuleInfo → ModuleInfo) (b : Broker)
        (link : LinkData) (r : (BrokerResult × Option Broker) × World)
        → ((h : ℕ) (info : ModuleInfo)
            → Listens guids info
            → Listens guids (change (handle_bytes h) info))
        → Listening (some b, w)
        → Linked w error change b link r
        → Listening (r.0.1, r.1)
    Linked-step w error change b link ((broker_ok, b'), w') keep (g, l) (e, _, _, held) = rw e (
      held.guids_eq ∙ g,
      list_update-All guids link.module_sink_handle
          (change (handle_bytes link.module_source_handle)) b.modules
          (keep link.module_source_handle) l,
    )
    Linked-step w error change b link ((broker_error, b'), w') keep (g, l) (_, e, held) =
        rw e (held.guids_eq ∙ g, l)
    Linked-step w error change b link ((broker_add_link_error, b'), w') keep (g, l) (_, e, held) =
        rw e (held.guids_eq ∙ g, l)
    Linked-step w error change b link ((broker_remove_link_error, b'), w') keep (g, l)
          (_, e, held) =
        rw e (held.guids_eq ∙ g, l)
    Linked-step w error change b link ((broker_invalidarg, b'), w') keep (g, l) (_, e, held) =
        rw e (held.guids_eq ∙ g, l)

  -- Broker_RemoveModule, whatever it is given.
  stop_module-guids : (w : World) (info : ModuleInfo) → (stop_module info w).1.guids ≡ w.guids
  unfolding stop_module
  stop_module-guids w info = ground arith

  removed_step :
      (w : World) (b : Broker) (m : Module) (o : Option ModuleInfo)
      → Listening (some b, w)
      → Listening (let r = detach_module b m o w in (some r.0.1, r.1))
  unfolding detach_module detach_stopped deinit_module
  removed_step w b m none (g, l) = (g, l)
  removed_step w b m (some info) (g, l) = elim (Bool-cases (stop_module info w).0) [
    | inl e ↦ rw e (stop_module-guids w info ∙ g, list_remove-All guids m.module_handle b.modules l)
    | inr e ↦ rw e (stop_module-guids w info ∙ g, list_remove-All guids m.module_handle b.modules l)
  ]

  broker_remove_module-Listening :
      (w : World) (b : Broker) (m : Module)
      → Listening (some b, w)
      → Listening (let r = broker_remove_module (some b) (some m) w in (r.0.1, r.1))
  unfolding broker_remove_module
  broker_remove_module-Listening w b m l = elim (Bool-cases (w.oracle w.calls)) [
    | inl e ↦ rw e (removed_step _ b m (list_find m.module_handle b.modules) l)
    | inr e ↦ rw e l
  ]

  module _ (long : (n : ℕ) → length (guids n) ≡ 36) where
    broker_call-Listening :
        (c : BrokerCall) (b : Broker) (w : World)
        → Listening (some b, w)
        → Listening (broker_call c (some b, w))
    unfolding broker_call broker_add_module broker_add_link broker_remove_link change_link
    broker_call-Listening (adds m) b w l =
        elim (Bool-cases ((m.module_apis == 0) || (m.module_handle == 0))) [
          | inl bad ↦ rw bad l
          | inr good ↦
              Added-step long w b m _ l
                (broker_add_module-Added b m w (ground arith) (ground arith))
        ]
    broker_call-Listening (removes m) b w l = broker_remove_module-Listening w b m l
    broker_call-Listening (links k) b w l =
        elim (Bool-cases ((k.module_sink_handle == 0) || (k.module_source_handle == 0))) [
          | inl bad ↦ rw bad l
          | inr good ↦
              Linked-step long w broker_add_link_error subscribe b k _
                (subscribe-Listens guids long) l
                (broker_link-Linked w b k (ground arith) (ground arith)).0
        ]
    broker_call-Listening (unlinks k) b w l =
        elim (Bool-cases ((k.module_sink_handle == 0) || (k.module_source_handle == 0))) [
          | inl bad ↦ rw bad l
          | inr good ↦
              Linked-step long w broker_remove_link_error unsubscribe b k _
                (unsubscribe-Listens guids long) l
                (broker_link-Linked w b k (ground arith) (ground arith)).1
        ]

    broker_call-Listening_any :
        (c : BrokerCall) (state : Option Broker × World)
        → Listening state
        → Listening (broker_call c state)
    unfolding broker_call broker_add_module broker_remove_module broker_add_link broker_remove_link
        change_link
    broker_call-Listening_any c (some b, w) l = broker_call-Listening c b w l
    broker_call-Listening_any (adds m) (none, w) l = l
    broker_call-Listening_any (removes m) (none, w) l = l
    broker_call-Listening_any (links k) (none, w) l = l
    broker_call-Listening_any (unlinks k) (none, w) l = l

    run-Listening :
        (cs : List BrokerCall) (state : Option Broker × World)
        → Listening state
        → Listening (broker_run cs state)
    unfolding broker_run
    run-Listening [] state l = l
    run-Listening (c ∷ cs) state l =
        run-Listening cs (broker_call c state) (broker_call-Listening_any c state l)

Created-Listening : (w : World) (r : Option Broker × World) → Created w r → Listening w.guids r
Created-Listening w (none, w') held = held.guids_eq
Created-Listening w (some b, w') (_, empty, held) = (held.guids_eq, rw empty tt)

-- After Broker_Create and any history of calls that add and remove modules and links, with any
-- arguments and whichever platform calls fail, every attached module's socket is subscribed to the
-- quit signal of the module: no Broker_RemoveLink takes that subscription away. Unique ids have 36
-- bytes, as their buffer says (BROKER_GUID_SIZE).
pub broker_run-Listening :
    (w : World) (cs : List BrokerCall)
    → ((n : ℕ) → length (w.guids n) ≡ 36)
    → Listening w.guids (broker_run cs (broker_create w))
broker_run-Listening w cs long =
    run-Listening w.guids long cs (broker_create w)
      (Created-Listening w (broker_create w) (broker_create-Created w))
