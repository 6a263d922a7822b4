-- ===== src/Etw.antt =====
-- src/controller/etw_monitor.cpp: kernel events, from the record that ETW delivers to the events
-- that the controller keeps for the session's processes.
pub mod Event
pub mod Values
pub mod Describe
pub mod Details
pub mod Build
pub mod Monitor
pub mod Numbers
pub mod Callback
pub mod Integers
mod Tests
pub mod Soundness
pub mod Category
