-- ===== src/Keyboard/Tests.antt =====
-- Runs of the keyboard on concrete inputs.
use ceda_cemu.Base.{
  ℕ, zero, suc, ◌≡◌, refl, sym, ap, ◌∙◌, true, false, Option, none, some, List, [], ◌∷◌, ◌++◌,
  replicate,
}
use ceda_cemu.Keyboard.{
  Keyboard, AssociatorFunc, associators, keyboard_toggle_modifier, keyboard_init,
}
use ceda_cemu.Keyboard.Keys.{Key, lshift, letter_a, Associator, Key-discrete}
use ceda_cemu.Keyboard.Stream.{
  waiting, octets, keystrokes, perform_all, whole_keystrokes, react, desk_step,
}
use ceda_cemu.Keyboard.Modifiers.{Action, stroke, read, inputs, modifiers_lem}

abbrev key_at : List (Key × Associator AssociatorFunc) → ℕ → Option Key
key_at [] n = none
key_at ((k, a) ∷ rest) zero = some k
key_at ((k, a) ∷ rest) (suc n) = key_at rest n

abbrev place : List (Key × Associator AssociatorFunc) → Key → ℕ
place [] k = 0
place ((j, a) ∷ rest) k = elim (Key-discrete j k) [ yes e ↦ 0 | no n ↦ suc (place rest k) ]

-- A numbering of the keys: their places in the table.
unfoldable number : Key → ℕ
unfolding Key-discrete
number k = place associators k

key_at-number : (k : Key) → key_at associators (number k) ≡ some k
unfolding number
key_at-number lshift = refl
key_at-number k = refl

number-injective : (k j : Key) → number k ≡ number j → k ≡ j
number-injective k j e =
    some_injective k j (sym (key_at-number k) ∙ ap (key_at associators) e ∙ key_at-number j)
  where
    some_injective : (k j : Key) → some k ≡ some j → k ≡ j
    some_injective k j h = cc

abbrev idle : Keyboard
idle = record {
  keyboard_serial_fifo = record { head = 0; tail = 0; buffer = replicate 8 0 };
  modifiers = 0xc0;
}

-- Shift is pressed, an A is typed and two octets are read.
abbrev typing : List Action
typing = stroke lshift false ∷ stroke letter_a false ∷ stroke letter_a true ∷ read ∷ read ∷ []

whole_keystrokes_example :
    let (t, out) = perform_all number (keyboard_init idle) (inputs number typing) in
    out ++ waiting t
    ≡ (0 ∷ 0 ∷ 0 ∷ 0 ∷ [])
      ++ octets
          (keystrokes number (record { octets_waiting = 4; held = 0xc0 }) (inputs number typing))
whole_keystrokes_example = whole_keystrokes number idle (inputs number typing) refl

typed :
    keystrokes number (record { octets_waiting = 4; held = 0xc0 }) (inputs number typing)
    ≡ record { key_code = 0x20; modifiers = 0xc1 } ∷ []
unfolding keystrokes desk_step react number Key-discrete keyboard_toggle_modifier
typed = refl

modifiers_example : (perform_all number idle (inputs number typing)).0.modifiers ≡ 0xc1
modifiers_example = modifiers_lem number number-injective typing idle refl
