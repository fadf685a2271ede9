-- ===== src/Transport.antt =====
-- crates/iv-transport/src: the instruments behind the bus.
pub mod Instruments
pub mod Replies
pub mod Identity
pub mod Resources
pub mod Fault
pub mod Wire
pub mod Session
pub mod Pair
pub mod Words
pub mod Commands
pub mod Drivers
