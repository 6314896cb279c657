-- ===== src/Scons.antt =====
-- The build engine under scons/scons-local-2.5.0/SCons, with which the SConstruct file builds the
-- program.
pub mod Node
pub mod Children
pub mod Changed
pub mod Executor
pub mod UniqueList
pub mod Unvisited
pub mod Walker
pub mod Taskmaster
pub mod Job
pub mod Examples
pub mod ListExamples
