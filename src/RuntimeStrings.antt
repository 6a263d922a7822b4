-- ===== src/RuntimeStrings.antt =====
-- The recovery of strings from the memory of a process, src/controller/gui.cpp: Decode the
-- two decoders, Rows the rows, Extract the search in bytes, Merge the shared rows and their index, Scan
-- one pass over memory, Scanner what starts and feeds it; the other files prove.
pub mod Decode
pub mod Hex
pub mod Base64
pub mod Rows
pub mod Extract
pub mod Runs
pub mod Found
pub mod Wide
pub mod Recovers
pub mod Merge
pub mod Search
pub mod Indexed
pub mod Scan
pub mod Ends
pub mod Rescan
pub mod Regions
pub mod Unchanged
pub mod Scanner
mod Tests
