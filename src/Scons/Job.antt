-- ===== src/Scons/Job.antt =====
-- `Jobs`, `Serial` and `Parallel` of scons/scons-local-2.5.0/SCons/Job.py over the task master.
pub mod Jobs
pub mod Serial
pub mod Parallel
