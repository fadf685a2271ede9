-- ===== src/Plan.antt =====
-- crates/iv-core/src: planning a sweep.
pub mod Decimal
pub mod Sweep
pub mod Lattice
