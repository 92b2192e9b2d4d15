-- ===== src/Memory.antt =====
-- The durable memory (agi_platform/memory/core.py).
pub mod Values
pub mod Tables
pub mod Entries
pub mod Store
pub mod Revision
pub mod Search
pub mod Layer
pub mod Changes
pub mod History
