-- ===== src/Upd8255.antt =====
-- src/upd8255.c: the parallel port, which switches the memory and the video bank.
use ceda_cemu.Base.{
  ℕ, bit_and, bit_or, Bool, not, List, ◌==◌, ltb, if◌then◌else◌, get_or, set, replicate,
}
use ceda_cemu.Base.Outcome.{Fault, Outcome, ok, fault, ◌>>◌, check}
use ceda_cemu.Bus.{Memory, bus_mem_switch, video_bank}

abbrev upd8255_porta_reg : ℕ
upd8255_porta_reg = 0

abbrev upd8255_portb_reg : ℕ
upd8255_portb_reg = 1

abbrev upd8255_portc_reg : ℕ
upd8255_portc_reg = 2

abbrev upd8255_ports_count : ℕ
upd8255_ports_count = 3

abbrev upd8255_control_reg : ℕ
upd8255_control_reg = 3

abbrev upd8255_reg_count : ℕ
upd8255_reg_count = 4

-- `(!!b) << n`, by the value of the bit.
abbrev bit : Bool → ℕ → ℕ
bit b n = if b then n else 0

-- `port`, `video_frameSync()` and `fdc_getIntStatus()`.
unfoldable pub upd8255_in : List ℕ → Bool → Bool → ℕ → Outcome ℕ
upd8255_in port frame_sync int_status address =
    let value =
      if address == upd8255_control_reg
      then 0
      else if address == upd8255_portc_reg
      then bit_or (bit_or 0 (bit frame_sync 2)) (bit int_status 4)
      else get_or port address 0 in
    check (ltb address upd8255_reg_count) Fault.assertion >> ok value

-- Behind the first assertion.
unfoldable pub write_port : List ℕ → Memory → ℕ → ℕ → Outcome (List ℕ × Memory)
write_port port memory address value =
    let ports = set port address value in
    let switched = bus_mem_switch memory (not (bit_and value 0x01 == 0)) in
    if address == upd8255_control_reg
    then ok (port, memory)
    else if address == upd8255_porta_reg
    then ok (ports, memory)
    else if address == upd8255_portb_reg
    then ok (ports, video_bank switched (not (bit_and value 0x80 == 0)))
    else if address == upd8255_portc_reg
    then ok (ports, memory)
    else fault Fault.assertion

unfoldable pub upd8255_out : List ℕ → Memory → ℕ → ℕ → Outcome (List ℕ × Memory)
unfolding write_port
upd8255_out port memory address value =
    check (ltb address upd8255_reg_count) Fault.assertion >> write_port port memory address value

unfoldable pub upd8255_restart : List ℕ
upd8255_restart = replicate upd8255_ports_count 0
