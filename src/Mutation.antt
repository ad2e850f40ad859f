-- ===== src/Mutation.antt =====
-- remote_mutation.py: targets and their fingerprints (`Target`), the closed results of adapters
-- (`Result`), what the queries return (`Query`), dry-run plans (`Plan`), the state of an
-- execution (`Engine`), the serial loop (`Serial`) and the authorization in front of it
-- (`Production`).
pub mod Target
pub mod Result
pub mod Query
pub mod Plan
pub mod Engine
pub mod Serial
pub mod Authorize
pub mod Production
pub mod Reconcile
pub mod History
