-- ===== src/Util.antt =====
-- The parts of util/ that the engine, the server and the shell stand on.
pub mod Status
pub mod Strings
pub mod Pool
pub mod Hash
pub mod Uuid
pub mod RequestCache
pub mod Arena
pub mod ConcurrentQueue
pub mod WaitGroup
pub mod Spinlock
pub mod ObjectPool
pub mod Stopwatch
pub mod Logger
