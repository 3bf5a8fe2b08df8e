-- ===== src/Daemon.antt =====
-- src/daemon/efd.cpp: the daemon that takes the kernel's messages into the database.
pub mod Message
pub mod Loop
pub mod Start
pub mod FileLock
