-- ===== src/Lib.antt =====
-- The core of the Azure IoT Gateway SDK: messages, the message broker, the gateway with its events,
-- its configuration file and its module loader, and the identity map, a module.
--
-- A gateway (core/src/gateway_ll.c) loads modules, attaches each to one broker and keeps the links
-- between them. The broker (core/src/broker.c) gives each module a thread and a nanomsg socket,
-- publishes a message as one frame, the bytes of the source's handle and the message's byte array
-- form, and the thread of each module whose socket is subscribed to that handle makes a message of
-- it again and calls Module_Receive. Messages (core/src/message.c) are counted references to a
-- constmap of properties and a constbuffer of content.
--
-- Base: numbers, tests and lists; Base.Int has int32_t values, with the sums that the C code forms
--   in int32_t read in two's complement; Base.Outcome has the results of a C routine: a value, a
--   failure that the routine reports, or `fault`, an access out of bounds or an undefined
--   conversion.
-- Message: core/src/message.c. Shared has what it calls in azure-c-shared-utility, as parameters,
--   and the count of the handles held; Handle the constructors, Message_Clone, the getters and
--   Message_Destroy; Parse Message_CreateFromByteArray with its two helpers; Serialize
--   Message_ToByteArray. Encoding is an independent description of the byte array form. Reading,
--   Safety, Body and Accept are about the parser, Writing about the printer, Forms, RoundTrip and
--   Canonical about both, References about the counts.
-- Broker: core/src/broker.c. World has the platform calls; State the data; Create Broker_Create,
--   Broker_IncRef and Broker_Destroy; Modules init_module, start_module, stop_module,
--   deinit_module, Broker_AddModule and Broker_RemoveModule; Links Broker_AddLink and
--   Broker_RemoveLink; Publish Broker_Publish; Worker module_worker. Resources, Attach, Detach,
--   Routing, Occurrences, Subscriptions, Topics, Listening, Frames, Quit and Delivery hold the proofs.
-- Gateway: core/src/gateway_ll.c. Env has the calls of module loader, modules and event system;
--   State the data and the searches; BrokerLinks and Links the links; Modules
--   gateway_addmodule_internal and gateway_removemodule_internal; Destroy and Create
--   gateway_destroy_internal and Gateway_LL_Create; ModuleList Gateway_LL_GetModuleList, Api the
--   other calls. Search, Sources, Listing, Mixed, LinkEffects, ModuleEffects, RemoveEffects,
--   Catalog, Teardown, Creation and History hold the proofs. Parson, Json and CreateJson are
--   core/src/gateway.c, with parson as a parameter: Gateway_Create_From_JSON, parse_json_internal and
--   destroy_properties_internal;
--   ReadLoop, Reading, Parsed, Document, GivenBack and FromFile hold the proofs about it. An empty
--   array of modules makes the code read a variable that was never assigned to, a `fault`.
-- Loader: core/src/module_loader.c, with the platform's dynamic libraries as parameters; Load has its
--   functions, Loaded the proofs. The gateway's Env counts a load of it as one library.
-- Events: core/src/internal/event_system.c. State has its data; Init EventSystem_Init; Report
--   EventSystem_AddEventCallback, Gateway_LL_AddEventCallback of core/src/gateway_ll.c,
--   EventSystem_ReportEvent and callbacks_call; Worker
--   get_from_thread_queue and callback_thread_main_func, with the steps of all threads as a relation
--   Step on a Machine and its histories Reach, where a thread that is created while another one is
--   there is kept beside it; Destroy EventSystem_Destroy. Startup, Handles, Threads,
--   Order, Rows, Errored and Ending hold the proofs. Report calls Gateway_LL_GetModuleList of Gateway.
-- Identity: modules/identitymap/src/identitymap.c. Config has the configuration, its check and its
--   copies; Tables the two orders, with qsort and bsearch as parameters; Create IdentityMap_Create and
--   IdentityMap_Destroy; Maps the calls of maps and the changes to properties; Receive
--   IdentityMap_Receive. Canonical, Creation, Lifetime, Valid, Changes, Publishing, Wanted, Receiving,
--   Received, Capable, Delivers, Answers and Configured hold the proofs, Sorting a sorting and a search
--   that satisfy what Tables asks for. Receive uses Message, and takes Broker_Publish as a function that
--   leaves the message, what is held and the memory as they were.
-- The Samples and Tests of each part run the code on small inputs.
--
-- How the code is read. A handle is a number, its address, 0 for NULL; it has 64 bits, least byte
-- first. A pointer that may be NULL is an Option. A freed object is `none` in the result of the
-- call that freed it. A call of the platform that can fail asks an oracle by the number of calls
-- made, so every pattern of failures is a value of the oracle. In Message one run makes no library
-- call twice on the same arguments, so the library is functions of the arguments there. Each
-- resource is counted: it grows where the call that gives it succeeds and shrinks where it is given
-- back. Closing a socket gives it back also where nn_close reports an error, which the code only
-- logs. A lock is taken or not, and the operations under it are one step. Subscriptions of a socket
-- are a list in which a topic may stand more than once, as nanomsg counts them.
--
-- Vectors and lists of azure-c-shared-utility are lists, as its documentation says: VECTOR_find_if and
-- list_find give the first element that fits, VECTOR_erase and list_remove take that one out,
-- VECTOR_push_back and list_add put one at the end or fail, and VECTOR_push_back on NULL fails.
--
-- Reads. Each byte that the parser and module_worker look at, the copy of the content by
-- CONSTBUFFER_Create and each round of strncmp are accesses that fault past the end of the array.
-- Gateway_LL_RemoveLink gives a NULL name of its entry to strcmp, which has no meaning, so an
-- entry has both names there; for Gateway_LL_AddLink an entry without both is `none`, like a NULL one.
--
-- Bounds and fuel. The parser's `parse_properties` is a recursion on the count in the bytes. The
-- loops of gateway_removemodule_internal and gateway_destroy_internal run on fuel, the length of
-- the vector that they shorten in each round; RemoveEffects and Teardown prove that they end with
-- none left. The rounds of module_worker are the list of what its calls return.
--
-- Threads. Messages, the broker and the gateway are read call by call. In Events a step is what a
-- thread does under one lock, or what it does between two: a report before callbacks_call, its two
-- halves, a registration, and the worker's steps. A client's callback is a call that is noted; what
-- it does to the event system is steps of its own.
--
-- Not modelled: core/src/broadcast_broker.c, the older broker; the variant for UWP; how two threads
-- interleave inside an operation of the broker; the other modules, the bindings and samples. Log
-- output is left out.
pub mod Base
pub mod Message
pub mod Broker
pub mod Gateway
pub mod Loader
pub mod Events
pub mod Identity
