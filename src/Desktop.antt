-- ===== src/Desktop.antt =====
-- The desktop application, crates/iv-desktop/src.
pub mod States
pub mod Safety
pub mod Engine
pub mod Control
