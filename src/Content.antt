-- ===== src/Content.antt =====
-- contracts/geo-business: the records of the content chain and its pure functions.
pub mod Knowledge
pub mod Opportunities
pub mod Drafts
pub mod Gates
pub mod Publication
