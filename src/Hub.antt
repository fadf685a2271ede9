-- ===== src/Hub.antt =====
-- crates/instrument-hub/src: the service that owns the GPIB bus for several applications.
pub mod Controller
pub mod Journal
pub mod Listing
pub mod State
pub mod Bus
pub mod Core
pub mod Sessions
pub mod Worker
pub mod Connection
pub mod Proxy
