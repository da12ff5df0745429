-- ===== src/Tests.antt =====
-- Concrete runs of the definitions, and the theorems applied to them.
pub mod Fixtures
pub mod Forging
mod Failing
pub mod Confirming
mod Injecting
mod Contracts
pub mod Sending
pub mod Gateway
mod Web
mod Storing
mod Routing
