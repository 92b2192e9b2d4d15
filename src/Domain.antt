-- ===== src/Domain.antt =====
-- agi_platform/domain.py: versioned entities, and the life cycles of workflows and tasks.
pub mod States
pub mod Entity
pub mod Workflow
pub mod Task
pub mod Machine
pub mod Entities
