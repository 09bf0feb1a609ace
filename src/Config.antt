-- ===== src/Config.antt =====
-- config/: what the configuration is made into.
pub mod Dag
pub mod Graph
pub mod Keeps
pub mod Release
pub mod Fill
pub mod Sorted
pub mod Round
pub mod Loop
pub mod Pending
pub mod Build
pub mod Sorting
pub mod Checked
pub mod Rules
pub mod Servers
pub mod Settings
pub mod Groups
pub mod Proxies
pub mod Known
pub mod Blame
pub mod Loading
pub mod Sound
