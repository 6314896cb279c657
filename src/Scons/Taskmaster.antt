-- ===== src/Scons/Taskmaster.antt =====
-- The task master of the build tool, scons/scons-local-2.5.0/SCons/Taskmaster.py: the walk over the
-- dependency graph that hands out the nodes to build.
pub mod State
pub mod Flush
pub mod Walk
pub mod Task
pub mod Postprocess
pub mod Cycle
pub mod Tasks
