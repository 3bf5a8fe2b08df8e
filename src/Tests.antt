-- ===== src/Tests.antt =====
-- Concrete runs of the definitions, and the theorems at concrete inputs.
mod KernelRuns
mod DaemonRuns
mod ScanRuns
mod QueueRuns
mod MountRuns
mod StartRuns
mod InitRuns
mod SqlTable
mod LockRuns
mod FillRuns
mod ModuleRuns
mod CommandRuns
mod SearchRuns
