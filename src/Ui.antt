-- ===== src/Ui.antt =====
-- src/ui.
pub mod Events
