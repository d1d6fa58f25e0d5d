-- ===== src/Control.antt =====
-- The control messages.
pub mod Constant
