-- ===== src/Driver.antt =====
-- The kernel drivers of code/examples.
pub mod User
pub mod Core
pub mod PlatformDriver
pub mod CharDevice
pub mod MiscDevice
pub mod Panel
pub mod Allocation
pub mod FaultDevice
pub mod FaultUser
pub mod IoctlUser
pub mod WaitQueue
pub mod Completion
pub mod CompletionExample
pub mod SharedCounter
pub mod SpinCounter
pub mod MmapDevice
pub mod MmapUser
pub mod MutexExample
pub mod Samples
mod Tests
