-- ===== src/Tests.antt =====
-- Concrete inputs at which the theorems apply.
pub mod Fixtures
mod Audits
mod Costs
mod Policies
mod Sizes
mod Spends
mod Trails
mod Queues
mod Loads
mod Bundles
mod Commands
mod Buffers
