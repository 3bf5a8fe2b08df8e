-- ===== src/Scan.antt =====
-- src/os/linux/_file.h, src/os/linux/_file.cpp and src/ef_file.cpp: what is known of a file, and the
-- walk over the file system.
pub mod Info
pub mod Walk
