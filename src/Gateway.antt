-- ===== src/Gateway.antt =====
-- core/src/gateway_ll.c: the modules and links of a gateway, over the broker.
pub mod Env
pub mod State
pub mod BrokerLinks
pub mod Links
pub mod Modules
pub mod Destroy
pub mod Create
pub mod Parson
pub mod Json
pub mod CreateJson
pub mod ReadLoop
pub mod Reading
pub mod Parsed
pub mod Document
pub mod GivenBack
pub mod FromFile
pub mod Api
pub mod ModuleList
pub mod Search
pub mod LinkEffects
pub mod ModuleEffects
pub mod RemoveEffects
pub mod Catalog
pub mod Sources
pub mod Listing
pub mod Mixed
pub mod Teardown
pub mod Creation
pub mod History
mod Tests
