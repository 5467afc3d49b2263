-- ===== src/Proactive.antt =====
-- Turning-Good-Agent/proactive: the parts of the proactive service that are modelled.
pub mod ReviewWindow
pub mod Incidents
pub mod Scheduler
