-- ===== src/Provider.antt =====
-- runtime/provider: the boundary to the language model.
pub mod Contract
pub mod Request
