-- ===== src/Close.antt =====
-- Accruals and the period close: src/bel/domain/accrual.py and R001 with R006 of
-- src/bel/application/period_close.py. A quantity is an integer of ten-thousandths, money one of
-- hundredths, a period and a date are numbers.
pub mod Accrual
pub mod Reversals
pub mod Clears
pub mod Requirements
mod Tests
