-- ===== src/Backend.antt =====
-- backend/: the calls to the cluster behind the API and the login.
pub mod Calls
pub mod Caches
pub mod Tokens
pub mod Ensure
pub mod Local
pub mod Login
pub mod Purge
pub mod Examples
pub mod Crds
pub mod Rsa
