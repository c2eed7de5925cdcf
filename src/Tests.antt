-- ===== src/Tests.antt =====
-- The theorems at concrete inputs, and runs of the definitions.
mod Device
mod Buckets
mod Files
mod Locks
mod Numbers
mod Disk
mod Posix
mod Pools
mod Lookup
mod Splits
mod Visits
mod Creation
mod Recovery
mod Rekeying
mod Crashes
mod Verifying
mod Commits
