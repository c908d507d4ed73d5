-- ===== src/Examples.antt =====
-- The theorems at concrete inputs, and runs of the definitions.
mod Hashing
mod Messages
mod Nodes
mod Locks
mod Sorts
mod Status
mod Directories
mod Threads
mod Threading
mod Searches
mod Sessions
mod Queues
mod Pushes
mod Configs
mod Crawls
mod Systems
mod Reports
mod Programs
mod QueueFiles
