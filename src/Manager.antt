-- ===== src/Manager.antt =====
-- The llama.cpp manager, llamacpp-manager/.
pub mod Token
pub mod Supervisor
pub mod Models
