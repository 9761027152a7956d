-- ===== src/Auth.antt =====
-- lib and runtime/auth: session cookies, the account service and its wiring.
pub mod Keys
pub mod Signing
pub mod Cookie
pub mod Responses
pub mod Ports
pub mod Accounts
pub mod Login
pub mod Service
pub mod Table
pub mod Runtime
