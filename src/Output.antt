-- ===== src/Output.antt =====
-- iwyu_output.cc and iwyu_output.h: the uses of a file, and the lines that the program asks for.
pub mod Forward
pub mod Use
pub mod Headers
pub mod Report
pub mod Minimal
pub mod Facts
pub mod Verdict
pub mod Process
pub mod Line
pub mod Desired
pub mod Diffs
pub mod FileInfo
mod Tests
