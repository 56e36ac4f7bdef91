-- ===== src/Broker/Attach.antt =====
-- Broker_AddModule and Broker_RemoveModule of core/src/broker.c, on every path.
use azure_iot_gateway_sdk.Base.{
  ℕ, ◌+◌, ◌≡◌, ◌≢◌, refl, ap, inl, inr, true, false, Option, some, none, List, [], ◌∷◌, ◌++◌, ◌==◌,
  ◌||◌, Bool-cases, arith,
}
use azure_iot_gateway_sdk.Broker.World.{World}
use azure_iot_gateway_sdk.Broker.State.{
  BrokerResult, broker_ok, broker_error, broker_add_link_error, broker_remove_link_error,
  broker_invalidarg, Module, ModuleInfo, Broker,
}
use azure_iot_gateway_sdk.Broker.Modules.{
  InitResult, init_guid, init_module, deinit_module, start_module, attach_started, attach_module,
  with_info, add_module_checked, broker_add_module,
}
use azure_iot_gateway_sdk.Broker.Resources.{Held, Unchanged}

-- An info whose socket is subscribed to the quit signal.
abbrev pub started : ModuleInfo → ModuleInfo
started info = record info { topics = info.quit_message_guid ∷ [] }

abbrev InitAt : World → Module → InitResult × World → Type 0
InitAt w0 m ((none, true), w') = Held w0 2 0 0 0 0 0 w'
InitAt w0 m ((none, false), w') = Held w0 1 0 0 0 0 0 w'
InitAt w0 m ((some info, allocated), w') =
    (info.module_data ≡ m)
    × ((n : ℕ) × (info.quit_message_guid ≡ w0.guids n))
    × Held w0 2 1 1 0 0 0 w'

init_guid-InitAt : (w0 w : World) (m : Module) → Held w0 2 1 0 0 0 0 w → InitAt w0 m (init_guid m w)
unfolding init_guid
init_guid-InitAt w0 w m h = elim (Bool-cases (w.oracle w.calls)) [
  | inr e ↦ rw e (ground arith)
  | inl e ↦ rw e (elim (Bool-cases (w.oracle (w.calls + 1))) [
    | inr e1 ↦ rw e1 (ground arith)
    | inl e1 ↦
        rw e1 (refl, (w.calls, ap (λ (guids : ℕ → List ℕ). guids w.calls) h.guids_eq), ground arith)
  ])
]

init_module-InitAt :
    (w0 w : World) (m : Module) → Held w0 1 0 0 0 0 0 w → InitAt w0 m (init_module m w)
unfolding init_module
init_module-InitAt w0 w m h = elim (Bool-cases (w.oracle w.calls)) [
  | inr e ↦ rw e (ground arith)
  | inl e ↦ rw e (elim (Bool-cases (w.oracle (w.calls + 1))) [
    | inr e1 ↦ rw e1 (ground arith)
    | inl e1 ↦ rw e1 (init_guid-InitAt w0 _ m (ground arith))
  ])
]

abbrev StartedAt : World → ModuleInfo → Option ModuleInfo × World → Type 0
StartedAt w0 info (none, w') = Held w0 2 1 1 0 0 0 w'
StartedAt w0 info (some info', w') = (info' ≡ started info) × Held w0 2 1 1 1 1 0 w'

start_module-StartedAt :
    (w0 w : World) (info : ModuleInfo)
    → Held w0 2 1 1 0 0 0 w
    → StartedAt w0 info (start_module info w)
unfolding start_module
start_module-StartedAt w0 w info h = ground arith

-- A module was added as `info`, with all that it needs; or nothing was changed.
abbrev pub AddedAs : World → Broker → ModuleInfo → (BrokerResult × Broker) × World → Type 0
AddedAs w0 b info ((broker_ok, b'), w') =
    (b' ≡ record b { modules = b.modules ++ started info ∷ [] }) × Held w0 2 1 1 1 1 0 w'
AddedAs w0 b info ((result, b'), w') = (result ≡ broker_error) × (b' ≡ b) × Unchanged w0 w'

after_start :
    (w0 : World) (b : Broker) (info : ModuleInfo) (r : Option ModuleInfo × World)
    → StartedAt w0 info r
    → AddedAs w0 b info (attach_started b r.0 r.1)
unfolding attach_started deinit_module
after_start w0 b info (none, w) h = ground arith
after_start w0 b info (some info', w) h = ground arith

attach_module-AddedAs :
    (w0 w : World) (b : Broker) (info : ModuleInfo)
    → Held w0 2 1 1 0 0 0 w
    → AddedAs w0 b info (attach_module b info w)
unfolding attach_module deinit_module
attach_module-AddedAs w0 w b info h = elim (Bool-cases (w.oracle w.calls)) [
  | inr e ↦ rw e (ground arith)
  | inl e ↦ rw e (after_start w0 b info _ (start_module-StartedAt w0 _ info (ground arith)))
]

-- Some info for the module was added, or nothing was changed.
abbrev AddedFor : World → Broker → Module → (BrokerResult × Broker) × World → Type 0
AddedFor w0 b m r =
    (info : ModuleInfo) × (info.module_data ≡ m)
    × ((n : ℕ) × (info.quit_message_guid ≡ w0.guids n))
    × AddedAs w0 b info r

-- An info that the failing paths can name.
abbrev unused : World → Module → ModuleInfo
unused w m = record { module_data = m; quit_message_guid = w.guids 0; topics = [] }

with_info-AddedFor :
    (w0 : World) (b : Broker) (m : Module) (r : InitResult × World)
    → InitAt w0 m r
    → AddedFor w0 b m (with_info b r.0 r.1)
unfolding with_info deinit_module
with_info-AddedFor w0 b m ((none, true), w) h = (unused w0 m, refl, (0, refl), ground arith)
with_info-AddedFor w0 b m ((none, false), w) h = (unused w0 m, refl, (0, refl), ground arith)
with_info-AddedFor w0 b m ((some info, allocated), w) h = (
  info,
  h.0,
  h.1,
  elim (Bool-cases (w.oracle w.calls)) [
    | inr e ↦ rw e (ground arith)
    | inl e ↦ rw e (attach_module-AddedAs w0 _ b info (ground arith))
  ],
)

add_module_checked-AddedFor :
    (w : World) (b : Broker) (m : Module) → AddedFor w b m (add_module_checked b m w)
unfolding add_module_checked
add_module_checked-AddedFor w b m = elim (Bool-cases (w.oracle w.calls)) [
  | inr e ↦ rw e (unused w m, refl, (0, refl), ground arith)
  | inl e ↦ rw e (with_info-AddedFor w b m _ (init_module-InitAt w _ m (ground arith)))
]

-- What Broker_AddModule does.
abbrev pub Added : World → Broker → Module → (BrokerResult × Option Broker) × World → Type 0
Added w b m ((broker_ok, b'), w') =
    (info : ModuleInfo) × (info.module_data ≡ m)
    × ((n : ℕ) × (info.quit_message_guid ≡ w.guids n))
    × (b' ≡ some (record b { modules = b.modules ++ started info ∷ [] }))
    × Held w 2 1 1 1 1 0 w'
Added w b m ((result, b'), w') = (result ≡ broker_error) × (b' ≡ some b) × Unchanged w w'

lift-Added :
    (w : World) (b : Broker) (m : Module) (r : (BrokerResult × Broker) × World)
    → AddedFor w b m r
    → Added w b m ((r.0.0, some r.0.1), r.1)
lift-Added w b m ((broker_ok, b'), w') (info, e, n, h) = (info, e, n, ap some h.0, h.1)
lift-Added w b m ((broker_error, b'), w') (info, e, n, h) = (h.0, ap some h.1, h.2)
lift-Added w b m ((broker_add_link_error, b'), w') (info, e, n, h) = (h.0, ap some h.1, h.2)
lift-Added w b m ((broker_remove_link_error, b'), w') (info, e, n, h) = (h.0, ap some h.1, h.2)
lift-Added w b m ((broker_invalidarg, b'), w') (info, e, n, h) = (h.0, ap some h.1, h.2)

-- On arguments that are not NULL Broker_AddModule returns BROKER_OK and has put the module at the
-- end of the list, with a socket that is subscribed to the module's quit signal (a unique id), a
-- thread, a lock, a string and two memory blocks; or it returns BROKER_ERROR, and the broker and
-- all that is held are as before.
pub broker_add_module-Added :
    (b : Broker) (m : Module) (w : World)
    → m.module_apis ≢ 0
    → m.module_handle ≢ 0
    → Added w b m (broker_add_module (some b) (some m) w)
unfolding broker_add_module
broker_add_module-Added b m w ha hh =
    let valid : ((m.module_apis == 0) || (m.module_handle == 0)) ≡ false = ground arith in
    rw valid (lift-Added w b m _ (add_module_checked-AddedFor w b m))
