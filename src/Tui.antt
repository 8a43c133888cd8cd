-- ===== src/Tui.antt =====
-- tui/src: the terminal client, as far as it computes.
pub mod Selection
