-- ===== src/Tests.antt =====
-- The theorems at concrete inputs.
mod Threads
mod Locks
mod Pages
mod Arenas
mod Processes
mod Paths
mod Gates
mod Lists
mod Chars
mod Strings
mod Files
mod Contents
mod Disk
mod Directory
mod Commands
mod Numbers
