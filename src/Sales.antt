-- ===== src/Sales.antt =====
-- Matching of sales invoices and of receipts to sales contracts, application/sales_matching.py: a
-- human proposes candidates and confirms the allocations.
pub mod Rows
pub mod Propose
pub mod Confirm
pub mod Legs
pub mod Bounded
pub mod OneCase
pub mod Once
mod Tests
