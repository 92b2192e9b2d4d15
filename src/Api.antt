-- ===== src/Api.antt =====
-- api/main.py: what every request passes before its handler.
pub mod Controls
pub mod Handlers
pub mod Endpoints
pub mod Shared
