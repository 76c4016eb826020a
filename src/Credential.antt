-- ===== src/Credential.antt =====
-- The package `agentcredential`: machine credentials that prove an identity and carry no scope.
pub mod Types
pub mod Texts
pub mod Checks
pub mod Memory
pub mod Manager
