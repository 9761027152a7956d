-- ===== src/Tenancy.antt =====
-- contracts/tenancy: organizations, memberships, invitations, sessions and the audit trail.
pub mod Entities
pub mod Authorization
pub mod Invitations
pub mod Sessions
pub mod Audit
pub mod Repository
