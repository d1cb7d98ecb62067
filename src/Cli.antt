-- ===== src/Cli.antt =====
-- src/cli.c: the command line. A client on a TCP socket sends lines, each line names a command, and
-- the command's handler works on the machine. One child module for each group of handlers, one for
-- the lines and one for the connection.
pub mod Text
pub mod State
pub mod Debugging
pub mod Memory
pub mod Saving
pub mod Media
pub mod Lines
pub mod Link
pub mod Framing
pub mod Flood
pub mod Ends
pub mod SaveLoad
mod Tests
