-- ===== src/Tests.antt =====
-- Concrete values of the interfaces, which meet their laws, and the theorems at concrete inputs.
mod Memory
mod Disk
mod StorageRuns
mod IndexRuns
mod CoreRuns
mod RecoveryRuns
mod SpecRuns
mod RestartRuns
mod ServerRuns
mod UtilRuns
mod ToolRuns
mod ClientRuns
mod NetRuns
mod OwnershipRuns
mod BsonRuns
mod ShellRuns
mod DaemonRuns
mod ConcurrencyRuns
mod AllocationRuns
