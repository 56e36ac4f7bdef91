-- ===== src/Gateway/Env.antt =====
-- What core/src/gateway_ll.c calls beside the broker: module libraries, the modules' own functions,
-- and the event system, whose reports are kept in order.
use azure_iot_gateway_sdk.Base.{ℕ, ◌+◌, ◌-◌, Bool, List, ◌∷◌, ◌==◌, if◌then◌else◌}
use azure_iot_gateway_sdk.Broker.World.{World, M}
use azure_iot_gateway_sdk.Broker.World

-- GATEWAY_EVENT of core/inc/gateway.h
pub data GatewayEvent : Type 0 where
  gateway_created gateway_started gateway_module_list_changed gateway_destroyed : GatewayEvent

-- `handles n` is what ModuleLoader_Load or Module_Create returns if it is called when `n` other calls
-- were made: an address, 0 for NULL. `apis` gives the MODULE_APIS of a library, and `has_start` says
-- whether its Module_Start is there.
pub record Env : Type 0 where
  pub world : World
  pub handles : ℕ → ℕ
  pub apis : ℕ → ℕ
  pub has_start : ℕ → Bool
  -- What is held: libraries, instances of modules, vectors, event systems, condition variables,
  -- and the values and texts of parson.
  pub libraries : ℕ
  pub instances : ℕ
  pub vectors : ℕ
  pub event_systems : ℕ
  pub conditions : ℕ
  pub json_values : ℕ
  pub json_texts : ℕ
  -- The reports, last first, and the modules whose Module_Start was called, last first.
  pub events : List GatewayEvent
  pub starts : List ℕ

abbrev pub G : Type 0 → Type 0
G A = Env → A × Env

abbrev pub pure : {A : Type 0} → A → G A
pure a e = (a, e)

infixl 5 ◌>>=◌ ◌>>◌
abbrev pub ◌>>=◌ : {A B : Type 0} → G A → (A → G B) → G B
◌>>=◌ m f e = let (a, e') = m e in f a e'

abbrev pub ◌>>◌ : {B : Type 0} → G (Unit {0}) → G B → G B
m >> k = m >>= λ _. k

-- A call of the broker or of the platform.
abbrev pub lift : {A : Type 0} → M A → G A
lift m e = let (a, w) = m e.world in (a, record e { world = w })

abbrev pub malloc : G Bool
malloc = lift World.malloc

abbrev pub free : G (Unit {0})
free = lift World.free

abbrev pub ask : G Bool
ask = lift World.ask

-- ModuleLoader_Load and ModuleLoader_Unload.
abbrev pub load : G ℕ
load e =
    let (_, e') = ask e in
    let handle = e.handles e.world.calls in
    (handle, if handle == 0 then e' else record e' { libraries = e'.libraries + 1 })

abbrev pub unload : G (Unit {0})
unload e = (tt, record e { libraries = e.libraries - 1 })

-- Module_Create and Module_Destroy of the module.
abbrev pub module_create : G ℕ
module_create e =
    let (_, e') = ask e in
    let handle = e.handles e.world.calls in
    (handle, if handle == 0 then e' else record e' { instances = e'.instances + 1 })

abbrev pub module_destroy : G (Unit {0})
module_destroy e = (tt, record e { instances = e.instances - 1 })

abbrev pub vector_create : G Bool
vector_create e =
    let (done, e') = ask e in (done, if done then record e' { vectors = e'.vectors + 1 } else e')

abbrev pub vector_destroy : G (Unit {0})
vector_destroy e = (tt, record e { vectors = e.vectors - 1 })

-- EventSystem_Init and EventSystem_Destroy.
abbrev pub event_system_init : G Bool
event_system_init e =
    let (done, e') = ask e in
    (done, if done then record e' { event_systems = e'.event_systems + 1 } else e')

abbrev pub event_system_destroy : G (Unit {0})
event_system_destroy e = (tt, record e { event_systems = e.event_systems - 1 })

-- ModuleLoader_GetModuleAPIs of a library.
abbrev pub module_apis : ℕ → G ℕ
module_apis library e = (e.apis library, e)

-- EventSystem_ReportEvent
abbrev pub report : GatewayEvent → G (Unit {0})
report event e = (tt, record e { events = event ∷ e.events })

-- Module_Start of the module, where its library has one.
abbrev pub module_start : ℕ → ℕ → G (Unit {0})
module_start library handle e =
    (tt, if e.has_start library then record e { starts = handle ∷ e.starts } else e)
