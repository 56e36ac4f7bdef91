-- ===== src/Broker/Detach.antt =====
-- Broker_RemoveModule of core/src/broker.c, on every path.
use azure_iot_gateway_sdk.Base.{
  ◌≡◌, ◌⊎◌, refl, ap, inl, inr, Bool, true, false, Option, some, none, Bool-cases, arith,
}
use azure_iot_gateway_sdk.Broker.World.{World}
use azure_iot_gateway_sdk.Broker.State.{
  BrokerResult, broker_ok, broker_error, broker_invalidarg, Module, ModuleInfo, Broker, list_find,
  list_remove,
}
use azure_iot_gateway_sdk.Broker.Modules.{
  deinit_module, stop_module, detach_stopped, detach_module, broker_remove_module,
}
use azure_iot_gateway_sdk.Broker.Resources.{Held, Unchanged}

-- What was sent in between is of no account.
abbrev pub resent : World → World → World
resent w0 w' = record w0 { sent = w'.sent }

abbrev StoppedAt : World → Bool × World → Type 0
StoppedAt w0 (true, w') = Held (resent w0 w') 2 1 1 0 0 0 w'
StoppedAt w0 (false, w') = Held (resent w0 w') 2 1 1 0 1 0 w'

stop_module-StoppedAt :
    (w0 w : World) (info : ModuleInfo) → Held w0 2 1 1 1 1 0 w → StoppedAt w0 (stop_module info w)
unfolding stop_module
stop_module-StoppedAt w0 w info h = ground arith

-- The module is off the list. All that it took is given back, or its thread could not be joined:
-- then its thread, its lock, its string and a memory block stay.
abbrev pub Removed : World → Broker → Module → (BrokerResult × Broker) × World → Type 0
Removed w0 b m ((result, b'), w') =
    (result ≡ broker_ok)
    × (b' ≡ record b { modules = list_remove m.module_handle b.modules })
    × (Unchanged (resent w0 w') w' ⊎ Held (resent w0 w') 1 1 1 0 1 0 w')

detach_stopped-Removed :
    (w0 : World) (b : Broker) (m : Module) (r : Bool × World)
    → StoppedAt w0 r
    → Removed w0 b m (detach_stopped b m r.0 r.1)
unfolding detach_stopped deinit_module
detach_stopped-Removed w0 b m (true, w) h = (refl, refl, inl (ground arith))
detach_stopped-Removed w0 b m (false, w) h = (refl, refl, inr (ground arith))

detach_module-Removed :
    (w0 w : World) (b : Broker) (m : Module) (info : ModuleInfo)
    → Held w0 2 1 1 1 1 0 w
    → Removed w0 b m (detach_module b m (some info) w)
unfolding detach_module
detach_module-Removed w0 w b m info h =
    detach_stopped-Removed w0 b m _ (stop_module-StoppedAt w0 w info h)

-- What Broker_RemoveModule does with a module that is attached.
abbrev pub RemovedOrKept : World → Broker → Module → (BrokerResult × Option Broker) × World → Type 0
RemovedOrKept w0 b m ((broker_ok, b'), w') =
    (b' ≡ some (record b { modules = list_remove m.module_handle b.modules }))
    × (Unchanged (resent w0 w') w' ⊎ Held (resent w0 w') 1 1 1 0 1 0 w')
RemovedOrKept w0 b m ((result, b'), w') =
    (result ≡ broker_error) × (b' ≡ some b) × Held w0 2 1 1 1 1 0 w'

lift-Removed :
    (w0 : World) (b : Broker) (m : Module) (r : (BrokerResult × Broker) × World)
    → Removed w0 b m r
    → RemovedOrKept w0 b m ((r.0.0, some r.0.1), r.1)
lift-Removed w0 b m ((broker_ok, b'), w') (e, h, left) = (ap some h, left)
lift-Removed w0 b m ((broker_error, b'), w') (e, h, left) = cc
lift-Removed w0 b m ((BrokerResult.broker_add_link_error, b'), w') (e, h, left) = cc
lift-Removed w0 b m ((BrokerResult.broker_remove_link_error, b'), w') (e, h, left) = cc
lift-Removed w0 b m ((broker_invalidarg, b'), w') (e, h, left) = cc

-- Of a module that is attached and that holds what Broker_AddModule took for it, Broker_RemoveModule
-- returns BROKER_OK and has it off the list: all that it took is given back, or else its thread could
-- not be joined, and then the thread, the lock, the string and a memory block stay. Or it returns
-- BROKER_ERROR, and nothing is changed.
pub broker_remove_module-RemovedOrKept :
    (w0 w : World) (b : Broker) (m : Module) (info : ModuleInfo)
    → list_find m.module_handle b.modules ≡ some info
    → Held w0 2 1 1 1 1 0 w
    → RemovedOrKept w0 b m (broker_remove_module (some b) (some m) w)
unfolding broker_remove_module
broker_remove_module-RemovedOrKept w0 w b m info e h = elim (Bool-cases (w.oracle w.calls)) [
  | inr no_lock ↦ rw no_lock (ground arith)
  | inl lock ↦
      rw (lock, e) (lift-Removed w0 b m _ (detach_module-Removed w0 _ b m info (ground arith)))
]

-- A module that is not attached is refused, and nothing changes.
pub broker_remove_module_missing :
    (w : World) (b : Broker) (m : Module)
    → list_find m.module_handle b.modules ≡ none
    → ((broker_remove_module (some b) (some m) w).0 ≡ (broker_error, some b))
      × Unchanged w (broker_remove_module (some b) (some m) w).1
unfolding broker_remove_module detach_module
broker_remove_module_missing w b m e = elim (Bool-cases (w.oracle w.calls)) [
  | inr no_lock ↦ rw no_lock (refl, ground arith)
  | inl lock ↦ rw (lock, e) (refl, ground arith)
]
