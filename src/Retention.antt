-- ===== src/Retention.antt =====
-- retention.py: the candidate policy (`Policy`), the reports of all remote identities (`Report`)
-- and the local holds (`Control`).
pub mod Reason
pub mod Policy
pub mod Inventory
pub mod Report
pub mod Control
