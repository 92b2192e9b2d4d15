-- ===== src/Outbound.antt =====
-- Requests to other hosts (agi_platform/outbound.py).
pub mod Policy
pub mod Validation
pub mod Client
