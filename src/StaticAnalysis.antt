-- ===== src/StaticAnalysis.antt =====
-- The static analysis of a file in src/controller/gui.cpp. Reader reads its bytes, Strings finds
-- texts, Resources its resources, Headers and Imports what they say, Analyze and Pe put it together; the
-- other files prove.
pub mod Reader
pub mod Strings
pub mod Runs
pub mod Resources
pub mod Bounds
pub mod Headers
pub mod Imports
pub mod Analyze
pub mod Pe
pub mod Limits
pub mod Fuel
pub mod Ready
mod Tests
