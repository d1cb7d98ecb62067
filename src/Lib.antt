-- ===== src/Lib.antt =====
-- A model of ceda-cemu, the emulator of the Sanco 8000 computer: the machine behind the processor, the
-- command line and the main loop.
--
-- The guest's processor reaches the machine through the callbacks of src/cpu.c, and through them the
-- bus (src/bus.c), which has the memories and hands ports to the parallel port (src/upd8255.c), the
-- floppy disk controller (src/fdc.c), the serial controller (src/sio2.c), the video controller
-- (src/crtc.c) and the expansion bus (src/ubus.c). The parallel port switches the memories. The disk
-- controller reaches the images (src/floppy.c) through two callbacks, which loading and unloading
-- an image set. The serial controller takes octets from the keyboard (src/keyboard.c) and the serial
-- line (src/serial.c), keeps them in ring buffers (src/fifo.h) and raises requests in the interrupt
-- chain (src/int.c), which drives the processor's INT input. Breakpoints and watchpoints
-- (src/monitor.c) are checked at every access. The command line (src/cli.c) works on all of this; it
-- reads its lines with src/tokenizer.c and keeps its texts in the strings of src/ceda_string.c. The
-- main loop (src/ceda.c) starts and polls all of these modules.
--
-- Base: numbers, Boolean tests, arrays as lists (Lists), bit operations and their laws (Bits),
--   `int` results (Int), and code that can abort (Outcome): a failed `assert`, a write behind an
--   array and a call of a null pointer are faults. The asserts are those of a debug build. Text
--   has C strings as lists of octets.
-- Bus: the memory side of src/bus.c, with src/ram and the memories of src/bios.c and src/video.c, in
--   one record. Windows has what is read and written.
-- Ubus: src/ubus.c, src/ubus.h, over the state `W` of the peripherals; the used entries of
--   `ubus_slots` are a list. Slots has the invariant, Routing who answers.
-- Fdc: src/fdc.c, src/fdc.h, src/fdc_registers.h. State has the static variables as the record
--   `Fdc`, with the state `D` of the media that the callbacks work on; function pointers are the
--   names of the functions that they point to. Operations has the command table; Transfer
--   `fdc_prepare_read` and `fdc_commit_write`; Commands and Results the routines before, during and
--   behind an execution phase; Sequencer `fdc_compute_next_status`; Ports the public routines.
--   Shape to Safety show the invariant for each routine, Accesses for all accesses; Seek, SeekSense
--   and TwoSeeks are about seeks; Stream, WriteSector and Advance about transfers; Rejects about
--   refused commands and faults; Drives about the loop over the busy bits.
-- Fifo: the macros of src/fifo.h on the record `Fifo`, whose pointers are indices. Queue is the
--   specification, Refine the refinement.
-- Interrupts: src/int.c, src/int.h. Pending has the invariant, Priority the order of service.
-- Monitor: src/monitor.c, src/monitor.h. Slots has the invariant, Hits the watchpoints, Resume the
--   breakpoints.
-- Crtc: src/crtc.c, src/crtc.h. Registers has the widths and the cursor.
-- Floppy: src/floppy.c, src/floppy.h. `floppy_read_buffer` and `floppy_write_buffer` are callbacks
--   over `Units`; a file is its bytes, with the results of `fseek` and `fclose` on it; a host that
--   fails in `fread` or `fwrite` is not modelled. Layout has the geometry, Contents what is read
--   back, Drives the loading.
-- Sio2: src/sio2.c, src/sio2.h. Channel has one channel; the parent the write registers, the ports
--   and the poll, over the state `W` of the devices. Invariant, Ports, Polling and Events show the
--   invariant, Received follows an octet from the device to the guest.
-- Upd8255: src/upd8255.c. Io: the ports of src/bus.c over one record `Board` of all the devices, with
--   the registers of src/timer.c and src/speaker.c. Safety has what the guest may access, Switching
--   the memory switch.
-- Keyboard: src/keyboard.c. Keys has the keys of the table, Stream what the guest reads, Modifiers
--   the modifiers; SDL's numbering of the keys is a parameter.
-- Serial: src/serial.c, over what the socket calls answer. Line follows the octets, Closing opens
--   and closes.
-- Cpu: src/cpu.c, over a state `Z` of the processor and the library's operations on it. Stops and
--   Accesses are about breakpoints and watchpoints; Sample is a machine for tests.
-- Tokenizer: src/tokenizer.c. Numbers has the C library's `strtol`, Words and Hex what is read.
-- Strings: src/ceda_string.c, over what `malloc` answers. Represents has what an object holds, Pool
--   how one is taken.
-- Cli: src/cli.c. State has its variables, with the machine and the host's files; Debugging, Memory,
--   Saving and Media the commands, Lines the table of commands and the lines, Link the connection.
--   A string is its text, since the objects that carry it are the subject of Strings; the slots of
--   their pool are counted, and none left is a fault. Framing and Flood are about the client's data,
--   Ends about the loop of `cli_write`, SaveLoad about files.
-- Conf: src/conf.c, src/conf.h; the INI parser is a parameter. Settings has what is read back.
-- Main: src/ceda.c, src/module.h, over the table of module structures that the init functions fill.
--   Loop has how the main loop begins and ends, Trace the order of its calls. It runs on a number of
--   rounds, and `none` means that it goes on.
-- Tests of the components, beside them, run the code on concrete inputs.
--
-- Integers are natural numbers with the wrap-around of their C type written out: `unsigned int`
-- counters modulo 2^32, `size_t` modulo 2^64, octets modulo 256 where the code can exceed them.
-- Loops over arrays recur on the array; the loop over the four busy bits recurs on the four, and
-- the loop over the sectors of a track on their number, so no fuel is needed.
-- The loop of `cli_write` runs on fuel, the length of the line, since each round takes an octet.
--
-- Not modelled: logging; the processor and its disassembler, which are libraries; how fast the
-- processor runs and when a module is polled next (`cpu_remaining`, `cli_remaining`); the host's
-- sound and window (src/speaker.c, src/video.c, src/gui.c); the BIOS's file (src/bios.c); the option
-- types of src/conf.c that its table does not use.
pub mod Base
pub mod Bus
pub mod Cli
pub mod Conf
pub mod Cpu
pub mod Crtc
pub mod Fdc
pub mod Fifo
pub mod Floppy
pub mod Interrupts
pub mod Io
pub mod Keyboard
pub mod Main
pub mod Monitor
pub mod Serial
pub mod Sio2
pub mod Strings
pub mod Tokenizer
pub mod Ubus
pub mod Upd8255
