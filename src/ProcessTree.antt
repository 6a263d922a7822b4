-- ===== src/ProcessTree.antt =====
-- src/controller/process_tree_manager.cpp over analysis_session.h: the processes of one analysis
-- session, how a child joins it, and what becomes of its injection.
pub mod Session
pub mod Manager
pub mod Observe
pub mod Sessions
pub mod Settled
pub mod Twice
pub mod Steps
pub mod Consistent
pub mod Updates
pub mod Consistency
pub mod Exits
mod Tests
