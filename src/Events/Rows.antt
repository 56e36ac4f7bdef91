-- ===== src/Events/Rows.antt =====
-- What EventSystem_ReportEvent (core/src/internal/event_system.c) hands over to callbacks_call.
use azure_iot_gateway_sdk.Base.{
  ℕ, ◌+◌, ◌≡◌, subst, ◌≢◌, refl, sym, ◌⊎◌, inl, inr, true, false, Option, some, none, List, [], ◌∷◌,
  ◌++◌, Bool-cases,
}
use azure_iot_gateway_sdk.Base.Outcome.{Outcome, ok, fault}
use azure_iot_gateway_sdk.Gateway.Env.{Env, GatewayEvent}
use azure_iot_gateway_sdk.Gateway.Env.GatewayEvent.{
  gateway_created, gateway_started, gateway_module_list_changed, gateway_destroyed,
}
use azure_iot_gateway_sdk.Gateway.State.{Gateway}
use azure_iot_gateway_sdk.Gateway.ModuleList.{GatewayModuleInfo, gateway_ll_get_module_list}
use azure_iot_gateway_sdk.Events.State.{
  callback_destroy_modulelist, CallbackClosure, ThreadQueueRow, EventSystem,
}
use azure_iot_gateway_sdk.Events.Report.{
  Context, with_modules, handle_module_list_update, event_context, leave_context, copy_callbacks,
  prepare_report,
}

-- The gateway's list of modules at some moment of the report, and the callback that destroys it last.
abbrev pub GivesModules :
    Option Gateway
    → List CallbackClosure
    → Option (List GatewayModuleInfo)
    → List CallbackClosure
    → Type 0
GivesModules target registered context callbacks =
    (modules : List GatewayModuleInfo) × (e : Env) × ((gateway_ll_get_module_list target e).0
      ≡ ok (some modules))
    × (context ≡ some modules)
    × (callbacks ≡ registered ++ record { call = callback_destroy_modulelist; user_param = 0 } ∷ [])

-- The context of an event and the callbacks, from those that were registered.
abbrev pub Gives :
    GatewayEvent
    → Option Gateway
    → List CallbackClosure
    → Option (List GatewayModuleInfo)
    → List CallbackClosure
    → Type 0
Gives gateway_created target registered context callbacks =
    (context ≡ none) × (callbacks ≡ registered)
Gives gateway_started target registered context callbacks =
    (context ≡ none) × (callbacks ≡ registered)
Gives gateway_module_list_changed target registered context callbacks =
    GivesModules target registered context callbacks
Gives gateway_destroyed target registered context callbacks =
    (context ≡ none) × (callbacks ≡ registered)

-- A fault is a failed assert in Gateway_LL_GetModuleList.
abbrev Fills : GatewayEvent → Option Gateway → List CallbackClosure → Context → Type 0
Fills event target registered (ok (context, callbacks)) =
    Gives event target registered context callbacks
Fills event target registered Outcome.fail = event ≡ gateway_module_list_changed
Fills event target registered fault = event ≡ gateway_module_list_changed

module _ (target : Option Gateway) (registered : List CallbackClosure) where
  with_modules-Fills :
      (modules : Outcome (Option (List GatewayModuleInfo))) (before e : Env)
      → (gateway_ll_get_module_list target before).0 ≡ modules
      → Fills gateway_module_list_changed target registered (with_modules modules registered e).0
  unfolding with_modules
  with_modules-Fills (ok none) before e h = refl
  with_modules-Fills (ok (some modules)) before e h =
      elim (Bool-cases (e.world.oracle e.world.calls)) [
        | inl pushed ↦ rw pushed (modules, before, h, refl, refl)
        | inr failed ↦ rw failed refl
      ]
  with_modules-Fills Outcome.fail before e h = refl
  with_modules-Fills fault before e h = refl

  event_context-Fills :
      (event : GatewayEvent) (e : Env)
      → Fills event target registered (event_context event target registered e).0
  unfolding event_context handle_module_list_update
  event_context-Fills gateway_created e = (refl, refl)
  event_context-Fills gateway_started e = (refl, refl)
  event_context-Fills gateway_module_list_changed e =
      let r = gateway_ll_get_module_list target e in with_modules-Fills r.0 e r.1 refl
  event_context-Fills gateway_destroyed e = (refl, refl)

-- The outcome of a report before callbacks_call.
abbrev pub Prepares :
    EventSystem → ℕ → Option Gateway → GatewayEvent → Outcome (Option ThreadQueueRow) → Type 0
Prepares es gw target event (ok none) = (es.is_errored ≡ true) ⊎ (es.event_callbacks event ≡ [])
Prepares es gw target event (ok (some row)) =
    (es.is_errored ≡ false)
    × (es.event_callbacks event ≢ [])
    × (row.gateway ≡ gw)
    × (row.event_type ≡ event)
    × Gives event target (es.event_callbacks event) row.context row.callbacks
Prepares es gw target event Outcome.fail = (es.is_errored ≡ false) × (es.event_callbacks event ≢ [])
Prepares es gw target event fault = (es.is_errored ≡ false) × (event ≡ gateway_module_list_changed)

module _ (es : EventSystem) (gw : ℕ) (target : Option Gateway) (event : GatewayEvent) where
  leave_context-Prepares :
      (context : Context) (e : Env)
      → es.is_errored ≡ false
      → es.event_callbacks event ≢ []
      → Fills event target (es.event_callbacks event) context
      → Prepares es gw target event (leave_context gw event context e).0
  unfolding leave_context
  leave_context-Prepares (ok (context, callbacks)) e h ne fills = (h, ne, refl, refl, fills)
  leave_context-Prepares Outcome.fail e h ne fills = (h, ne)
  leave_context-Prepares fault e h ne fills = (h, fills)

  copy_callbacks-Prepares :
      (registered : List CallbackClosure) (e : Env)
      → es.is_errored ≡ false
      → es.event_callbacks event ≡ registered
      → Prepares es gw target event (copy_callbacks gw target event registered e).0
  unfolding copy_callbacks
  copy_callbacks-Prepares [] e h same = inr same
  copy_callbacks-Prepares (closure ∷ closures) e h same =
      let ne : es.event_callbacks event ≢ [] = λ empty. cc in
      elim (Bool-cases (e.world.oracle e.world.calls)) [
        | inr failed ↦ rw (failed, copy_callbacks) (h, ne)
        | inl made ↦ elim (Bool-cases (e.world.oracle (e.world.calls + 1))) [
          | inr failed ↦ rw (made, failed, copy_callbacks) (h, ne)
          | inl pushed ↦
              let e' : Env = record e {
                world = record e.world { calls = e.world.calls + 1 + 1 };
                vectors = e.vectors + 1;
              } in
              let context = event_context event target (closure ∷ closures) e' in
              rw (made, pushed, copy_callbacks)
                (leave_context-Prepares context.0 context.1 h ne (
                  subst (λ cs. Fills event target cs context.0) (sym same)
                    (event_context-Fills target (closure ∷ closures) event e')))
        ]
      ]

  -- A report reaches callbacks_call only for an event system that is not errored and an event with callbacks;
  -- its row has the gateway's address, the event, all callbacks that are registered for the event in their order
  -- and no others, and no context. When the list of modules has changed, the context is what
  -- Gateway_LL_GetModuleList gives, and the callback that destroys that list comes last. Without a row and
  -- without an error, the event system is errored or has no callback for the event.
  pub prepare_report-Prepares :
      (e : Env) → Prepares es gw target event (prepare_report es gw target event e).0
  unfolding prepare_report
  prepare_report-Prepares e = elim (Bool-cases es.is_errored) [
    | inl errored_already ↦ rw (errored_already, prepare_report) (inl refl)
    | inr fine ↦ simp fine (copy_callbacks-Prepares (es.event_callbacks event) e fine refl)
  ]
