-- ===== src/Pipeline.antt =====
-- runtime/geo: the application services over their append-only repositories.
pub mod Stores
pub mod Tables
pub mod Kinds
pub mod Action
pub mod Ensures
pub mod Services
pub mod Requests
