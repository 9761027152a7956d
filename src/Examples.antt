-- ===== src/Examples.antt =====
-- Concrete inputs and what the theorems say of them.
mod Data
mod Tests
mod Tenancy
mod Content
mod Pipeline
mod Auth
mod Entry
mod Access
mod Commands
mod Boundary
mod AuthTests
