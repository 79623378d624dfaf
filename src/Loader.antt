-- ===== src/Loader.antt =====
-- internal/pluginloader: the replicated state of the plugin loader.
pub mod Bolt
pub mod Lists
pub mod Deletion
pub mod Fsm
pub mod Topology
pub mod Capability
pub mod Pool
pub mod Trust
mod Examples
mod TopologyExamples
mod CapabilityExamples
mod PoolExamples
mod TrustExamples
