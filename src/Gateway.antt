-- ===== src/Gateway.antt =====
-- Turning-Good-Agent/gateway: the dispatcher of turns and the supervisor of the Runtime.
pub mod Turns
pub mod Supervisor
