-- ===== src/Pipeline/Services.antt =====
-- runtime/geo/services: one module for each group of services.
pub mod Knowledge
pub mod Opportunities
pub mod Articles
pub mod Gates
pub mod Delivery
