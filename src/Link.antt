-- ===== src/Link.antt =====
-- The procurement/sales bridge: src/bel/domain/procurement_sales_link.py, its repository in
-- src/bel/infrastructure/persistence/repositories.py, and the commands of
-- src/bel/application/procurement_sales_link.py. A row id, a contract, a fragment and a time are
-- numbers: the code only compares and orders them.
pub mod Rows
pub mod Repository
pub mod Commands
pub mod Corrections
pub mod OneCurrent
pub mod Keeps
pub mod CommandKeeps
pub mod Run
pub mod Current
pub mod Outcomes
pub mod Evidence
pub mod Replacement
pub mod Manual
pub mod ManualOnce
mod Tests
mod CorrectionTests
