-- ===== src/Match.antt =====
-- Procurement matching: src/bel/domain/normalize.py, src/bel/domain/matching.py and
-- src/bel/application/matching.py. Money is an integer of hundredths (NUMERIC(18,2)), a date is its
-- ordinal, and a text is the list of its code points.
pub mod Text
pub mod Tidy
pub mod Rows
pub mod Candidates
pub mod Subjects
pub mod Cohorts
pub mod Pass
pub mod Accounting
pub mod Rerun
pub mod Capacity
pub mod Guard
pub mod Invoices
pub mod Payments
pub mod Confirm
pub mod Confirmed
pub mod Earliest
mod Tests
