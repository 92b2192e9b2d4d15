-- ===== src/Orchestration.antt =====
-- agi_platform/orchestration.py: the durable state of workflows, the leases of their tasks, and the
-- engine that plans and executes them.
pub mod Documents
pub mod Tables
pub mod Store
pub mod Leases
pub mod Engine
