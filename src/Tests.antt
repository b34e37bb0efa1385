-- ===== src/Tests.antt =====
-- The theorems at concrete inputs, and runs of the operations. TaskTests has the tests of tasks, hosts
-- and name servers.
pub mod GpuTests
pub mod HistoryTests
pub mod RetryTests
pub mod TaskTests
mod ServiceTests
mod PlacementTests
mod LifecycleTests
mod CloudInitTests
mod ResourceTests
mod TowerTests
