-- ===== src/Fdc.antt =====
-- src/fdc.c: the NEC uPD765 floppy disk controller.
pub mod State
pub mod Operations
pub mod Transfer
pub mod Commands
pub mod Results
pub mod Sequencer
pub mod Ports
pub mod Frame
pub mod Shape
pub mod Drives
pub mod Runs
pub mod Invariant
pub mod Walk
pub mod Safety
pub mod Accesses
pub mod Protocol
pub mod Seek
pub mod SeekSense
pub mod TwoSeeks
pub mod Advance
pub mod Stream
pub mod WriteSector
pub mod Rejects
mod Tests
