-- ===== src/TargetResolver.antt =====
-- src/controller/target_resolver.cpp and office_target_resolver.cpp: how a file that is no plain
-- executable is turned into a launcher and its command line.
pub mod Quote
pub mod Profile
pub mod Detect
pub mod Launchers
pub mod Office
pub mod Resolve
