-- ===== src/Lib.antt =====
-- everyfile keeps a database of the names of all files, and searches it. It has three parts:
--
-- kernelmod/vfs_kprobe.c, a Linux kernel module. Probes on the functions of the virtual file
-- system report each operation as a message (a number, and the path behind its mount point). The
-- messages wait in a list of at most 128; older ones overflow into a log file. A thread sends a
-- message when it finds a request that the daemon has made over a netlink socket, and when its sleep
-- without a request ends.
-- src/daemon/efd.cpp, the daemon. It requests, reads a message, and inserts or deletes the name
-- in the database (src/ef_db.cpp over SQLite).
-- src/main.cpp, the command. It searches the database, or fills it: one thread walks the file
-- system (src/os/linux/_file.cpp) into a queue (src/datastruct), and one takes the records out.
--
-- Which file models what:
--
-- Prelude: shared names; texts of C as lists of bytes (CText), decimals, `sprintf`.
-- Kernel/State: the static variables of vfs_kprobe.c as one record, spin locks, and runs that may
-- meet undefined behaviour or a deadlock; a spin lock that is released while it is free stays free.
-- Kernel/Buffer: `add_vfs_changed`, `add_msg_to_file`.
-- Kernel/Sender: `send_msg`, `send_func`, `rcv_msg`. Kernel/Unload: `kprobe_exit`. Kernel/Mounts:
-- `mounted_at`, `is_special_mp`, `get_root`. Kernel/Probe: `pre_handler_common`,
-- `post_handler_common` (Operation: both around a call; Entry: those of calls that overlap).
-- Kernel/MountInfo: `parse_mounts_info`, with an instance of
-- `sscanf` for its witness in Conversions.
-- Kernel/Load: `read_file_content`, `init_mounts_info`.
-- Kernel/Module: `kprobe_init`, and the whole of `kprobe_exit`.
-- Kernel/LockOrder: the spin locks of `send_func` and `add_vfs_changed` in threads that run at once,
-- two or (Crowd, Together) any number. Kernel/MsgLock: the spin lock of `send_func` and `rcv_msg`.
-- Daemon/Message and Daemon/Loop: the loop of `ef_kernel_conn`.
-- Daemon/Start: `start_daemon`, `ef_init_lockfile_to_unique`, `main` and the socket of
-- `ef_kernel_conn`. Daemon/FileLock: daemon/lock_file.h, and daemons that are started one after another.
-- Db: the statements that `ef_db` builds; Db/Quote: how SQLite reads the names in them.
-- Db/Sqlite: what SQLite is taken to do; Db/Table: what the calls leave in the table. Db/Instance: the
-- one instance of `ef_db` in several threads.
-- Command: `main` of src/main.cpp (Answer: what a search prints). Err: src/ef_err.h and src/ef_debug.h.
-- Scan/Info and Scan/Walk: `_file_info`, `_get_file_type`, `_traverse_file_system`.
-- Queue: the linked queue of src/datastruct, used by one thread at a time, on a heap of entries; a
-- weak compare-and-swap that fails without a reason is an argument. Queue/Shared: `enqueue` and
-- `dequeue` an access at a time, for threads that run at once (Sound, with Linked, PutSound,
-- Shifted, TakeSound and Calls: what holds while one adds and one takes).
-- Init: the two threads of src/main.cpp that fill the database, as steps of one or the other;
-- Init/Interleaved: the same with the calls of the queue an access at a time (Realized: how the two
-- belong together; Answered: what a search behind it finds). There an access through an entry that is
-- not there is a step behind which the thread stands still.
-- Init/Fill: the same one thread after the other, from the walk to the statements (Whole), and on to
-- a search behind them (Answered).
-- Session: the kernel module and the daemon, one turn after another: reports of the probes, the
-- sending thread up to and behind its sleep, and rounds of the daemon, in any order (Delivery,
-- Sending, Turns, Schedule, Drained); Session/Mirror: what they leave in the table; Session/Search: what the command then
-- finds. Session/Operations: the probed calls in front of the reports; Session/System: the whole
-- program, from the probed calls to the search; Session/Overflow: a request behind an overflow.
-- Tests: runs at concrete inputs.
--
-- Numbers are natural numbers; an `unsigned int` counter is kept modulo 2 ^ 32, device numbers
-- modulo 2 ^ 8 and the length of a path modulo 2 ^ 16, as in the source; the count of the queue is
-- modulo 2 ^ 32 in Queue/Shared, and a plain number where one thread uses the queue. A C string is
-- the list of its bytes without the terminator. What the program does not implement is an
-- argument: the answers of `kmalloc`, of the socket and of `select`, the kernel's `kernel_write`,
-- the file system behind `lstat` and `readdir`, the clock, and the addresses that `new` returns.
-- Loops with no bound of their own take fuel; each theorem about such a loop shows that the fuel
-- it names is enough.
--
-- Not modelled: SQLite and its wrapper (src/db is a copy of sqlite3pp), the backup of an earlier daemon,
-- and the generated and built files of kernelmod. Outside Kernel/LockOrder, Kernel/MsgLock and
-- Kernel/Probe/Entry the calls of the module do not overlap.
pub mod Prelude
pub mod Kernel
pub mod Scan
pub mod Db
pub mod Daemon
pub mod Session
pub mod Tests
pub mod Queue
pub mod Init
pub mod Command
pub mod Err
