-- ===== src/Tests.antt =====
-- Concrete runs of the platform's theorems.
mod Domain
mod Lock
mod Outbound
mod Sandbox
mod Memory
mod Security
mod Api
mod Orchestration
mod Engine
mod Knowledge
mod Llm
mod Governance
