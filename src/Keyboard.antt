-- ===== src/Keyboard.antt =====
-- src/keyboard.c, src/keyboard.h: the keys, the modifiers and the buffer of octets for the guest.
pub mod Keys
pub mod Stream
pub mod Modifiers
mod Tests
use ceda_cemu.Base.{
  ℕ, zero, suc, ◌+◌, bit_xor, Bool, false, ◌||◌, Option, none, some, List, [], ◌∷◌, ◌==◌, ltb,
  if◌then◌else◌,
}
use ceda_cemu.Fifo.{Fifo, is_empty, push, pop, init, free}
use Keys.{
  Key, Associator, nop, key, func, insert, f1, f2, f3, f4, f5, f6, f7, f8, f9, f10, f11, f12, f13,
  f14, f15, escape, grave, digit_1, digit_2, digit_3, digit_4, digit_5, digit_6, digit_7, digit_8,
  digit_9, digit_0, minus, equals, delete, tab, letter_q, letter_w, letter_e, letter_r, letter_t,
  letter_y, letter_u, letter_i, letter_o, letter_p, leftbracket, rightbracket, backslash, capslock,
  letter_a, letter_s, letter_d, letter_f, letter_g, letter_h, letter_j, letter_k, letter_l,
  semicolon, apostrophe, return, lshift, letter_z, letter_x, letter_c, letter_v, letter_b, letter_n,
  letter_m, comma, period, slash, rshift, lctrl, space, ralt, rctrl, lalt, nonusbackslash, up, down,
  left, right, kp_7, kp_8, kp_9, kp_clear, kp_4, kp_5, kp_6, kp_minus, kp_1, kp_2, kp_3, kp_enter,
  kp_period, kp_0, kp_00,
}

-- The static variables of keyboard.c.
pub record Keyboard : Type 0 where
  pub keyboard_serial_fifo : Fifo ℕ
  pub modifiers : ℕ

abbrev pub keyboard_modifiers_default : ℕ
keyboard_modifiers_default = 0xc0

abbrev keyboard_modifier_shift : ℕ
keyboard_modifier_shift = 0x1

abbrev keyboard_modifier_caps_lock : ℕ
keyboard_modifier_caps_lock = 0x2

abbrev keyboard_modifier_alt : ℕ
keyboard_modifier_alt = 0x4

abbrev keyboard_modifier_ctrl : ℕ
keyboard_modifier_ctrl = 0x8

-- The functions that the table points to.
pub data AssociatorFunc : Type 0 where
  toggle_modifier : AssociatorFunc

abbrev pub associators : List (Key × Associator AssociatorFunc)
associators =
    (insert, key 0x4d)
    ∷ (f1, key 0x4e)
    ∷ (f2, key 0x4f)
    ∷ (f3, key 0x50)
    ∷ (f4, key 0x51)
    ∷ (f5, key 0x52)
    ∷ (f6, key 0x53)
    ∷ (f7, key 0x54)
    ∷ (f8, key 0x55)
    ∷ (f9, key 0x56)
    ∷ (f10, key 0x57)
    ∷ (f11, key 0x58)
    ∷ (f12, key 0x59)
    ∷ (f13, key 0x5a)
    ∷ (f14, key 0x5b)
    ∷ (f15, key 0x5c)
    ∷ (escape, key 0x01)
    ∷ (grave, key 0x02)
    ∷ (digit_1, key 0x03)
    ∷ (digit_2, key 0x04)
    ∷ (digit_3, key 0x05)
    ∷ (digit_4, key 0x06)
    ∷ (digit_5, key 0x07)
    ∷ (digit_6, key 0x08)
    ∷ (digit_7, key 0x09)
    ∷ (digit_8, key 0x0a)
    ∷ (digit_9, key 0x0b)
    ∷ (digit_0, key 0x0c)
    ∷ (minus, key 0x0d)
    ∷ (equals, key 0x0e)
    ∷ (delete, key 0x0f)
    ∷ (tab, key 0x12)
    ∷ (letter_q, key 0x13)
    ∷ (letter_w, key 0x14)
    ∷ (letter_e, key 0x15)
    ∷ (letter_r, key 0x16)
    ∷ (letter_t, key 0x17)
    ∷ (letter_y, key 0x18)
    ∷ (letter_u, key 0x19)
    ∷ (letter_i, key 0x1a)
    ∷ (letter_o, key 0x1b)
    ∷ (letter_p, key 0x1c)
    ∷ (leftbracket, key 0x1d)
    ∷ (rightbracket, key 0x1e)
    ∷ (backslash, key 0x1f)
    ∷ (capslock, func (some toggle_modifier))
    ∷ (letter_a, key 0x20)
    ∷ (letter_s, key 0x21)
    ∷ (letter_d, key 0x22)
    ∷ (letter_f, key 0x23)
    ∷ (letter_g, key 0x24)
    ∷ (letter_h, key 0x25)
    ∷ (letter_j, key 0x26)
    ∷ (letter_k, key 0x27)
    ∷ (letter_l, key 0x28)
    ∷ (semicolon, key 0x29)
    ∷ (apostrophe, key 0x2a)
    ∷ (return, key 0x2b)
    ∷ (lshift, func (some toggle_modifier))
    ∷ (letter_z, key 0x2e)
    ∷ (letter_x, key 0x2f)
    ∷ (letter_c, key 0x30)
    ∷ (letter_v, key 0x31)
    ∷ (letter_b, key 0x32)
    ∷ (letter_n, key 0x33)
    ∷ (letter_m, key 0x34)
    ∷ (comma, key 0x35)
    ∷ (period, key 0x36)
    ∷ (slash, key 0x37)
    ∷ (rshift, func (some toggle_modifier))
    ∷ (lctrl, func (some toggle_modifier))
    ∷ (space, key 0x39)
    ∷ (ralt, func (some toggle_modifier))
    ∷ (rctrl, func (some toggle_modifier))
    ∷ (lalt, func (some toggle_modifier))
    ∷ (nonusbackslash, key 0x10)
    ∷ (up, key 0x3a)
    ∷ (down, key 0x3b)
    ∷ (left, key 0x3c)
    ∷ (right, key 0x3d)
    ∷ (kp_7, key 0x3e)
    ∷ (kp_8, key 0x3f)
    ∷ (kp_9, key 0x40)
    ∷ (kp_clear, key 0x41)
    ∷ (kp_4, key 0x42)
    ∷ (kp_5, key 0x43)
    ∷ (kp_6, key 0x44)
    ∷ (kp_minus, key 0x45)
    ∷ (kp_1, key 0x46)
    ∷ (kp_2, key 0x47)
    ∷ (kp_3, key 0x48)
    ∷ (kp_enter, key 0x4c)
    ∷ (kp_period, key 0x49)
    ∷ (kp_0, key 0x4a)
    ∷ (kp_00, key 0x4b)
    ∷ []

-- `FIFO_INIT` and `i` NUL octets.
abbrev pub push_zeros : ℕ → Fifo ℕ → Fifo ℕ
push_zeros zero f = f
push_zeros (suc n) f = push_zeros n (push f 0)

unfoldable pub keyboard_init : Keyboard → Keyboard
keyboard_init s = record s { keyboard_serial_fifo = push_zeros 4 (init s.keyboard_serial_fifo) }

-- `SDL_KeyboardEvent`
pub record KeyboardEvent : Type 0 where
  pub key_up : Bool
  pub scancode : ℕ

-- `sdl` is SDL's numbering of the keys.
module _ (sdl : Key → ℕ) where
  unfoldable pub keyboard_toggle_modifier : ℕ → ℕ → ℕ
  keyboard_toggle_modifier code modifiers =
      if code == sdl lshift || code == sdl rshift
      then bit_xor modifiers keyboard_modifier_shift
      else if code == sdl capslock
      then bit_xor modifiers keyboard_modifier_caps_lock
      else if code == sdl lalt || code == sdl ralt
      then bit_xor modifiers keyboard_modifier_alt
      else if code == sdl lctrl || code == sdl rctrl
      then bit_xor modifiers keyboard_modifier_ctrl
      else modifiers

  abbrev pub call_func : AssociatorFunc → ℕ → ℕ → ℕ
  call_func toggle_modifier = keyboard_toggle_modifier

  -- The body of the loop's `switch`.
  unfoldable pub associate : Keyboard → KeyboardEvent → Associator AssociatorFunc → Keyboard
  associate s event nop = s
  associate s event (key code) =
      if event.key_up
      then s
      else if ltb (free s.keyboard_serial_fifo) 2
      then s
      else record s { keyboard_serial_fifo = push (push s.keyboard_serial_fifo code) s.modifiers }
  associate s event (func none) = s
  associate s event (func (some f)) = record s {
    modifiers = call_func f event.scancode s.modifiers;
  }

  -- The loop over the rest of the table.
  unfoldable pub handle_from :
      List (Key × Associator AssociatorFunc) → Keyboard → KeyboardEvent → Keyboard
  handle_from [] s event = s
  handle_from ((k, a) ∷ rest) s event =
      if sdl k == event.scancode then associate s event a else handle_from rest s event

  unfoldable pub keyboard_handle_event : Keyboard → KeyboardEvent → Keyboard
  keyboard_handle_event s event = handle_from associators s event

-- `keyboard_getChar`
unfoldable pub keyboard_get_char : Keyboard → Keyboard × Option ℕ
keyboard_get_char s =
    let (c, rest) = pop 0 s.keyboard_serial_fifo in
    if is_empty s.keyboard_serial_fifo
    then (s, none)
    else (record s { keyboard_serial_fifo = rest }, some c)
