-- ===== src/ChildPolicy.antt =====
-- src/controller/child_instrumentation_policy.cpp: whether a child process is injected, or only its
-- command line is logged.
pub mod Paths
pub mod Names
pub mod Decide
pub mod Boundary
pub mod Decisions
mod Tests
