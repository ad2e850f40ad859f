-- ===== src/Archive.antt =====
-- The admission of message bytes to the archive: src/mailarchive/ingest.py.
pub mod Files
pub mod Accounts
pub mod Create
pub mod Safe
pub mod Register
pub mod Ingest
pub mod Laws
