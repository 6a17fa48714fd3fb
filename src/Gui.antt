-- ===== src/Gui.antt =====
-- The desktop, src/kernel/gui.cpp. What only draws is left out.
pub mod Terminal
pub mod Windows
pub mod Calculator
pub mod Input
pub mod Format
