-- ===== src/Crtc.antt =====
-- src/crtc.c, src/crtc.h: the registers of the video controller.
pub mod Registers
mod Tests
use ceda_cemu.Base.{
  ℕ, ◌+◌, ◌*◌, ◌%◌, ◌^◌, bit_and, bit_or, Bool, true, false, ◌||◌, List, ◌==◌, leb, if◌then◌else◌,
  get_or, set, replicate,
}
use ceda_cemu.Base.Outcome.{Fault, Outcome, ok, fault}

-- `CRTCCursorBlink`
pub data CursorBlink : Type 0 where
  solid blink_slow blink_fast : CursorBlink

-- The static variables of crtc.c.
pub record Crtc : Type 0 where
  pub regs : List ℕ
  pub rselect : ℕ

-- CRTC_REGISTER_COUNT
abbrev crtc_register_count : ℕ
crtc_register_count = 18

abbrev reg_horizontal_sync_pulse_width : ℕ
reg_horizontal_sync_pulse_width = 3

abbrev reg_vertical_tot_char : ℕ
reg_vertical_tot_char = 4

abbrev reg_total_raster_adjust : ℕ
reg_total_raster_adjust = 5

abbrev reg_vertical_display_char : ℕ
reg_vertical_display_char = 6

abbrev reg_vertical_sync_pulse_position : ℕ
reg_vertical_sync_pulse_position = 7

abbrev reg_interlaced_mode : ℕ
reg_interlaced_mode = 8

abbrev reg_max_raster_raster : ℕ
reg_max_raster_raster = 9

abbrev reg_cursor_start_raster : ℕ
reg_cursor_start_raster = 10

abbrev reg_cursor_end_raster : ℕ
reg_cursor_end_raster = 11

abbrev reg_start_address_h : ℕ
reg_start_address_h = 12

abbrev reg_start_address_l : ℕ
reg_start_address_l = 13

abbrev reg_cursor_h : ℕ
reg_cursor_h = 14

abbrev reg_cursor_l : ℕ
reg_cursor_l = 15

abbrev reg_light_pen_h : ℕ
reg_light_pen_h = 16

abbrev reg_light_pen_l : ℕ
reg_light_pen_l = 17

abbrev mask_if : ℕ → ℕ → ℕ → ℕ → ℕ
mask_if r reg mask value = if r == reg then bit_and value mask else value

-- The chain of masks of `crtc_out`, one per register that has fewer than eight bits.
unfoldable pub mask_value : ℕ → ℕ → ℕ
mask_value r value =
    let v3 = mask_if r reg_horizontal_sync_pulse_width 0x0f value in
    let v4 = mask_if r reg_vertical_tot_char 0x7f v3 in
    let v5 = mask_if r reg_total_raster_adjust 0x1f v4 in
    let v6 = mask_if r reg_vertical_display_char 0x7f v5 in
    let v7 = mask_if r reg_vertical_sync_pulse_position 0x7f v6 in
    let v8 = mask_if r reg_interlaced_mode 0x03 v7 in
    let v9 = mask_if r reg_max_raster_raster 0x1f v8 in
    let v10 = mask_if r reg_cursor_start_raster 0x7f v9 in
    let v11 = mask_if r reg_cursor_end_raster 0x1f v10 in
    let v12 = mask_if r reg_start_address_h 0x3f v11 in mask_if r reg_cursor_h 0x3f v12

-- Writing the selected register; those of the light pen are read-only.
unfoldable pub write_selected : Crtc → ℕ → Crtc
write_selected s value =
    if (s.rselect == reg_light_pen_h) || (s.rselect == reg_light_pen_l)
    then s
    else record s { regs = set s.regs s.rselect (mask_value s.rselect value) }

unfoldable pub crtc_out : Crtc → ℕ → ℕ → Outcome Crtc
crtc_out s address value =
    if address == 0
    then ok (if leb crtc_register_count value then s else record s { rselect = value })
    else if address == 1
    then ok (write_selected s value)
    else fault Fault.assertion

abbrev pub reg : Crtc → ℕ → ℕ
reg s r = get_or s.regs r 0

unfoldable crtc_cursor_blink : Crtc → CursorBlink
crtc_cursor_blink s =
    if bit_and (reg s reg_cursor_start_raster) 0x40 == 0
    then CursorBlink.solid
    else if bit_and (reg s reg_cursor_start_raster) 0x20 == 0
    then CursorBlink.blink_slow
    else CursorBlink.blink_fast

unfoldable pub crtc_cursor_position : Crtc → ℕ
crtc_cursor_position s = (reg s reg_cursor_h * 256 + reg s reg_cursor_l) % 2 ^ 32

unfoldable crtc_cursor_raster_size : Crtc → ℕ × ℕ
crtc_cursor_raster_size s =
    (bit_and (reg s reg_cursor_start_raster) 0x1f, bit_and (reg s reg_cursor_end_raster) 0x1f)

unfoldable crtc_start_address : Crtc → ℕ
crtc_start_address s = bit_or (reg s reg_start_address_h * 256) (reg s reg_start_address_l) % 2 ^ 16

unfoldable pub crtc_restart : Crtc
crtc_restart = record { regs = replicate crtc_register_count 0; rselect = 0 }
