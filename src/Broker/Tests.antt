-- ===== src/Broker/Tests.antt =====
-- Runs of core/src/broker.c on the sample platform, brokers and messages.
use azure_iot_gateway_sdk.Base.{◌≡◌, refl, Option, some, List, [], ◌∷◌, ◌++◌, true, false, arith}
use azure_iot_gateway_sdk.Base.Outcome.{ok, Safe}
use azure_iot_gateway_sdk.Message.Shared.{Ledger}
use azure_iot_gateway_sdk.Message.Handle.{MessageData}
use azure_iot_gateway_sdk.Message.Encoding.{encoding}
use azure_iot_gateway_sdk.Message.Samples.{
  list_lib, list_copies, list_memory, list_clones, two_props, three_bytes, sample_message,
  nothing_held,
}
use azure_iot_gateway_sdk.Broker.World.{World}
use azure_iot_gateway_sdk.Broker.State.{
  BrokerResult, broker_ok, broker_add_link_error, broker_remove_link_error, Broker, list_find,
  find_module_predicate, list_update, broker_locate_handle,
}
use azure_iot_gateway_sdk.Broker.Create.{broker_create, broker_destroy}
use azure_iot_gateway_sdk.Broker.Resources.{
  Created, broker_create-Created, Destroyed, broker_destroy-Destroyed,
}
use azure_iot_gateway_sdk.Broker.Modules.{broker_add_module, broker_remove_module}
use azure_iot_gateway_sdk.Broker.Links.{
  subscribe, locate_both, change_link, broker_add_link, broker_remove_link,
}
use azure_iot_gateway_sdk.Broker.Publish.{Published, broker_publish}
use azure_iot_gateway_sdk.Broker.Worker.{WorkerRun, module_worker}
use azure_iot_gateway_sdk.Broker.Attach.{Added, broker_add_module-Added}
use azure_iot_gateway_sdk.Broker.Subscriptions.{
  Subscribed, OneMore, OneLess, broker_link-Subscribed,
}
use azure_iot_gateway_sdk.Broker.Detach.{RemovedOrKept, broker_remove_module-RemovedOrKept}
use azure_iot_gateway_sdk.Broker.Listening.{
  BrokerCall, adds, links, unlinks, broker_run, Listening, broker_run-Listening,
}
use azure_iot_gateway_sdk.Broker.Frames.{frame_of, SentOrNot, broker_publish-SentOrNot}
use azure_iot_gateway_sdk.Broker.Delivery.{
  IsFrame, arrives, Balanced, module_worker-Balanced, module_worker_quits, module_worker_delivers,
}
use azure_iot_gateway_sdk.Broker.Samples.{
  some_bytes, sized, sample_guid, sample_guid-IsGuid, world_holding, sample_module, other_module,
  info_of, two_modules, sample_link,
}

abbrev start : World
start = world_holding 5 3

abbrev three_calls : List BrokerCall
three_calls = adds sample_module ∷ adds other_module ∷ links sample_link ∷ unlinks sample_link ∷ []

frame_of-IsFrame : IsFrame (some (frame_of 4096 two_props three_bytes))
unfolding encoding
frame_of-IsFrame = ground arith

abbrev idle : Ledger → WorkerRun list_lib
idle l = record { delivered = []; freed = 0; ledger = l; running = true }

idle_run : module_worker list_lib sample_guid [] nothing_held ≡ ok (idle nothing_held)
unfolding module_worker
idle_run = refl

broker_create-Created_example : Created start (broker_create start)
broker_create-Created_example = broker_create-Created start

broker_destroy-Destroyed_example :
    Destroyed start two_modules (broker_destroy (some two_modules) start)
broker_destroy-Destroyed_example =
    broker_destroy-Destroyed two_modules start (omega arith) (omega arith) (omega arith)
      (omega arith) (omega arith)

abbrev added : (BrokerResult × Option Broker) × World
added =
    broker_add_module (some two_modules) (some (record { module_apis = 16; module_handle = 12288 }))
      start

broker_add_module-Added_example :
    Added start two_modules sample_module
      (broker_add_module (some two_modules) (some sample_module) start)
broker_add_module-Added_example =
    broker_add_module-Added two_modules sample_module start (ground arith) (ground arith)

attached : list_find 4096 two_modules.modules ≡ some (info_of sample_module)
unfolding list_find find_module_predicate
attached = refl

broker_remove_module-RemovedOrKept_example :
    RemovedOrKept
      (world_holding 3 2)
      two_modules
      sample_module
      (broker_remove_module (some two_modules) (some sample_module) start)
broker_remove_module-RemovedOrKept_example =
    broker_remove_module-RemovedOrKept (world_holding 3 2) start two_modules sample_module
      (info_of sample_module) attached (ground arith)

broker_link-Subscribed_example :
    Subscribed OneMore start broker_add_link_error two_modules sample_link
      (broker_add_link (some two_modules) (some sample_link) start)
    × Subscribed OneLess start broker_remove_link_error two_modules sample_link
        (broker_remove_link (some two_modules) (some sample_link) start)
broker_link-Subscribed_example =
    broker_link-Subscribed start two_modules sample_link (ground arith) (ground arith)

abbrev after_link : (BrokerResult × Option Broker) × World
after_link = broker_add_link (some two_modules) (some sample_link) start

abbrev after_unlink : (BrokerResult × Option Broker) × World
after_unlink = broker_remove_link after_link.0.1 (some sample_link) after_link.1

link_run : after_link ≡ ((broker_ok, after_link.0.1), after_link.1)
unfolding broker_add_link change_link locate_both broker_locate_handle list_find
    find_module_predicate
link_run = refl

unlink_run : after_unlink ≡ ((broker_ok, after_unlink.0.1), after_unlink.1)
unfolding broker_add_link broker_remove_link change_link locate_both broker_locate_handle list_find
    list_update find_module_predicate subscribe
unlink_run = refl

broker_run-Listening_example : Listening start.guids (broker_run three_calls (broker_create start))
broker_run-Listening_example = broker_run-Listening start three_calls (λ n. refl)

broker_publish-SentOrNot_example :
    (p : Published list_lib) × (broker_publish list_lib some_bytes
        (some two_modules)
        4096
        (some sample_message)
        nothing_held
        start
      ≡ ok p)
    × SentOrNot list_lib some_bytes sample_message two_props three_bytes nothing_held 4096 start p
broker_publish-SentOrNot_example =
    broker_publish-SentOrNot list_lib some_bytes sample_message two_props three_bytes nothing_held
      refl refl (omega arith) (omega arith) two_modules 4096 start list_clones (ground arith) sized

module_worker-Balanced_example : Safe (Balanced list_lib sample_guid nothing_held) (
    module_worker list_lib sample_guid
      (arrives (frame_of 4096 two_props three_bytes) ∷ [])
      nothing_held)
module_worker-Balanced_example =
    module_worker-Balanced list_lib sample_guid (arrives (frame_of 4096 two_props three_bytes) ∷ [])
      nothing_held (frame_of-IsFrame, tt)

module_worker_quits_example :
    module_worker list_lib sample_guid (arrives (sample_guid ++ 0 ∷ []) ∷ []) nothing_held
    ≡ ok (record { delivered = []; freed = 1; ledger = nothing_held; running = false })
module_worker_quits_example =
    module_worker_quits list_lib sample_guid [] nothing_held sample_guid-IsGuid

module_worker_delivers_example :
    (m : MessageData list_lib) × (module_worker list_lib sample_guid
        (arrives (frame_of 4096 two_props three_bytes) ∷ [])
        nothing_held
      ≡ ok (record (idle nothing_held) { delivered = m ∷ []; freed = 1 }))
    × (some m.properties ≡ some two_props)
    × (m.content ≡ three_bytes)
module_worker_delivers_example =
    module_worker_delivers list_lib sample_guid list_copies list_memory 4096 two_props three_bytes
      [] nothing_held (idle nothing_held) sample_guid-IsGuid (omega arith) (ground arith)
      (ground arith) (omega arith) idle_run
