-- ===== src/Examples.antt =====
-- Concrete runs of mcertikos/kern/flock, fs, thread and pmm, and each theorem with a hypothesis
-- at one of them.
mod Run
mod Locks
mod Queues
mod Threads
mod Pages
mod Quotas
mod Calls
mod Tables
mod Spin
mod Names
mod Chunks
mod Logs
mod Bitmap
mod Files
mod Folders
