-- ===== src/Main.antt =====
-- cpp/main/main.cpp: what the engine reads at its start.
pub mod Config
pub mod Wiring
