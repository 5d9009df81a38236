-- ===== src/Facts.antt =====
-- Facts that are kept as an anchor with revisions: contract items, contracts, sales contracts and
-- shipments. Four application modules and four repositories repeat one pattern, which is modelled
-- once, and what differs is modelled for each.
pub mod Rows
pub mod Fields
pub mod Repository
pub mod Revise
pub mod Chain
pub mod Append
pub mod History
pub mod Refine
pub mod Walk
pub mod Values
pub mod Asserted
pub mod Command
pub mod Outcome
pub mod Replay
pub mod Create
pub mod Items
pub mod Dependents
pub mod Contracts
pub mod Notices
pub mod SalesContracts
pub mod Shipments
pub mod Manual
pub mod Priced
pub mod Created
pub mod Sound
pub mod Flags
pub mod Effects
pub mod Incomplete
mod Tests
mod StoreTests
mod ManualTests
