-- ===== src/Postgres.antt =====
-- edc_translation/postgres_backend.py: the durable job ledger and work queue.
pub mod Tables
pub mod Transaction
pub mod Statements
pub mod Queue
pub mod Jobs
mod Rows
pub mod Claim
pub mod Held
pub mod Poll
pub mod Release
pub mod Ack
pub mod Invariant
