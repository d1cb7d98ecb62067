-- ===== src/Keyboard/Keys.antt =====
-- src/keyboard.c: the keys by SDL's names for their scancodes, and what an associator does.
use ceda_cemu.Base.{ℕ, Option}

-- `SDL_SCANCODE_*`, as far as keyboard.c names them.
pub data Key : Type 0 where
  insert f1 f2 f3 f4 f5 f6 f7 f8 f9 f10 f11 f12 f13 f14 f15 escape grave digit_1 digit_2 digit_3
        digit_4 digit_5 digit_6 digit_7 digit_8 digit_9 digit_0 minus equals delete tab letter_q
        letter_w letter_e letter_r letter_t letter_y letter_u letter_i letter_o letter_p leftbracket
        rightbracket backslash capslock letter_a letter_s letter_d letter_f letter_g letter_h
        letter_j letter_k letter_l semicolon apostrophe return lshift letter_z letter_x letter_c
        letter_v letter_b letter_n letter_m comma period slash rshift lctrl space ralt rctrl lalt
        nonusbackslash up down left right kp_7 kp_8 kp_9 kp_clear kp_4 kp_5 kp_6 kp_minus kp_1 kp_2
        kp_3 kp_enter kp_period kp_0 kp_00 :
      Key

-- `ceda_associator_t` by its type, over the functions `F` that `ptr` can point to.
pub data Associator (F : Type 0) : Type 0 where
  nop : Associator F
  key : ℕ → Associator F
  func : Option F → Associator F

unfoldable pub Key-discrete : Discrete Key
Key-discrete = hlevel
