-- ===== src/Controller.antt =====
-- controller/: the informers' index functions, the work queue, and the two reconcilers.
pub mod Common
pub mod Queue
pub mod Watch
pub mod ByUid
pub mod Users
pub mod Infra
