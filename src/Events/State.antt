-- ===== src/Events/State.antt =====
-- The data of core/src/internal/event_system.c, and the calls of the platform that only it makes.
use azure_iot_gateway_sdk.Base.{ℕ, ◌+◌, ◌-◌, Bool, Option, List, ◌==◌, if◌then◌else◌}
use azure_iot_gateway_sdk.Broker.World
use azure_iot_gateway_sdk.Gateway.Env.{G, GatewayEvent, lift, ask}
use azure_iot_gateway_sdk.Gateway.Env.GatewayEvent.{
  gateway_created, gateway_started, gateway_module_list_changed, gateway_destroyed,
}
use azure_iot_gateway_sdk.Gateway.ModuleList.{GatewayModuleInfo}

-- A GATEWAY_CALLBACK: the address of a client's function, or the one of this file.
pub data Callback : Type 0 where
  client : ℕ → Callback
  callback_destroy_modulelist : Callback

-- CALLBACK_CLOSURE
pub record CallbackClosure : Type 0 where
  pub call : Callback
  pub user_param : ℕ

-- THREAD_QUEUE_ROW; the gateway is an address, and `none` is a context that is a null pointer.
pub record ThreadQueueRow : Type 0 where
  pub gateway : ℕ
  pub event_type : GatewayEvent
  pub callbacks : List CallbackClosure
  pub context : Option (List GatewayModuleInfo)

-- EVENTSYSTEM_DATA. The two threads say whether the handle is there.
pub record EventSystem : Type 0 where
  pub event_callbacks : GatewayEvent → List CallbackClosure
  pub is_errored : Bool
  pub delay_when_queue_empty : Bool
  pub callback_thread : Bool
  pub destroyed_thread : Bool
  pub thread_queue : List ThreadQueueRow

-- The value of the enumeration, which is the index of the vector of callbacks.
abbrev pub event_index : GatewayEvent → ℕ
event_index gateway_created = 0
event_index gateway_started = 1
event_index gateway_module_list_changed = 2
event_index gateway_destroyed = 3

-- GATEWAY_EVENTS_COUNT
abbrev pub gateway_events_count : ℕ
gateway_events_count = 4

abbrev pub set_callbacks :
    GatewayEvent
    → List CallbackClosure
    → (GatewayEvent → List CallbackClosure)
    → GatewayEvent
    → List CallbackClosure
set_callbacks event callbacks f other =
    if event_index event == event_index other then callbacks else f other

abbrev pub lock_init : G Bool
lock_init = lift World.lock_init

abbrev pub lock_deinit : G (Unit {0})
lock_deinit = lift World.lock_deinit

abbrev pub condition_init : G Bool
condition_init e =
    let (done, e') = ask e in
    (done, if done then record e' { conditions = e'.conditions + 1 } else e')

abbrev pub condition_deinit : G (Unit {0})
condition_deinit e = (tt, record e { conditions = e.conditions - 1 })

abbrev pub list_create : G Bool
list_create = lift World.list_create

abbrev pub list_destroy : G (Unit {0})
list_destroy = lift World.list_destroy

abbrev pub thread_create : G Bool
thread_create = lift World.thread_create

-- ThreadAPI_Join, whose result is not read: it waits for the end of a thread that nobody has joined.
abbrev pub thread_join : G (Unit {0})
thread_join e = (tt, record e { world = record e.world { threads = e.world.threads - 1 } })
