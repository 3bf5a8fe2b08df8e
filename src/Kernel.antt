-- ===== src/Kernel.antt =====
-- kernelmod/vfs_kprobe.c: the kernel module that watches the file system and reports to the daemon.
pub mod State
pub mod Buffer
pub mod Load
pub mod LockOrder
pub mod MsgLock
pub mod Mounts
pub mod MountInfo
pub mod Probe
pub mod Sender
pub mod Unload
pub mod Module
