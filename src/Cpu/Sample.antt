-- ===== src/Cpu/Sample.antt =====
-- A concrete machine for the tests of src/bus.c, src/cpu.c and src/cli.c. It has no memory of the
-- guest's expansion cards; its processor is the program counter and whether the hook is armed.
use ceda_cemu.Base.{ℕ, Bool, true, false, none, some, List, [], replicate, length-replicate, arith}
use ceda_cemu.Bus.{Bank, Memory}
use ceda_cemu.Bus.Windows.{Inv}
use ceda_cemu.Crtc.{crtc_restart}
use ceda_cemu.Fdc.Ports.{static_fdc}
use ceda_cemu.Floppy.{Units}
use ceda_cemu.Interrupts.{no_irq}
use ceda_cemu.Io.{Board}
use ceda_cemu.Monitor.{static_monitors}
use ceda_cemu.Serial.{Devices, static_serial}
use ceda_cemu.Sio2.{Sio2}
use ceda_cemu.Cpu.{Z80, Machine}

unfoldable pub blank : ℕ → List ℕ
blank n = replicate n 0

abbrev pub memory : Memory
memory = record {
  is_mem_switched = false;
  is_bios_rom_switched = false;
  bios = blank 4096;
  aux = blank 2048;
  dynamic = blank 65536;
  mem_char = blank 2048;
  mem_attr = blank 2048;
  mem = some Bank.char;
}

pub memory-Inv : Inv memory
unfolding blank
memory-Inv = record {
  bios = length-replicate {A = ℕ} 4096 0;
  aux = length-replicate {A = ℕ} 2048 0;
  dynamic = length-replicate {A = ℕ} 65536 0;
  chars = length-replicate {A = ℕ} 2048 0;
  attrs = length-replicate {A = ℕ} 2048 0;
  selected = ground arith;
}

abbrev pub devices : Devices
devices = record {
  keyboard = record {
    keyboard_serial_fifo = record { head = 0; tail = 0; buffer = replicate 8 0 };
    modifiers = 0xc0;
  };
  serial = static_serial;
}

abbrev pub sio2 : Sio2 Devices
sio2 = record {
  channels = [];
  sio_interrupt_vector = 0;
  interrupts = record { pending = 0; irqs = replicate 3 no_irq; line = false };
  devices = devices;
}

abbrev pub board : Board Units ℕ
board = record {
  memory = memory;
  port = replicate 4 0;
  crtc = crtc_restart;
  frame_sync = true;
  sio2 = sio2;
  fdc = static_fdc (replicate 4 none);
  beeps = 0;
  ubus_slots = [];
  peripherals = 0;
}

abbrev pub Processor : Type 0
Processor = ℕ × Bool

abbrev pub z80 : Z80 Processor
z80 = record {
  break = λ p. p;
  power = λ on p. p;
  set_hook = λ armed p. (p.0, armed);
  set_pc = λ pc p. (pc, p.1);
  hook_opcode = 0x64;
}

abbrev pub machine : Machine Processor ℕ
machine = record {
  z80 = (0, false);
  pause = false;
  cycles = 0;
  last_update = 0;
  update_interval = 1000;
  monitors = static_monitors;
  board = board;
}
