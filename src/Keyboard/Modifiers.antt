-- ===== src/Keyboard/Modifiers.antt =====
-- src/keyboard.c: the modifiers follow the parity of the events of their keys.
use ceda_cemu.Base.{
  ℕ, ◌+◌, ◌≡◌, ◌≢◌, refl, ap, sym, ◌∙◌, bit_xor, Bool, true, false, not, none, some, List, [], ◌∷◌,
  ◌==◌, if◌then◌else◌, arith,
}
use ceda_cemu.Keyboard.{
  Keyboard, KeyboardEvent, AssociatorFunc, toggle_modifier, associators, keyboard_toggle_modifier,
  associate, keyboard_handle_event, keyboard_get_char, keyboard_modifiers_default,
}
use ceda_cemu.Keyboard.Keys.{
  Key, Associator, nop, key, func, Key-discrete, lshift, rshift, capslock, lalt, ralt, lctrl, rctrl,
}
use ceda_cemu.Keyboard.Stream.{
  Input, event, get_char, perform, perform_all, associated_in, associated, handle_from_lem,
}

-- Events of the keys that keyboard.c names, pressed or released, and reads of the guest.
pub data Action : Type 0 where
  stroke : Key → Bool → Action
  read : Action

abbrev pub is_shift : Key → Bool
is_shift lshift = true
is_shift rshift = true
is_shift k = false

abbrev pub is_caps_lock : Key → Bool
is_caps_lock capslock = true
is_caps_lock k = false

abbrev pub is_alt : Key → Bool
is_alt lalt = true
is_alt ralt = true
is_alt k = false

abbrev pub is_ctrl : Key → Bool
is_ctrl lctrl = true
is_ctrl rctrl = true
is_ctrl k = false

abbrev differ : Bool → Bool → Bool
differ true b = not b
differ false b = b

-- Whether an odd number of events are of such keys.
abbrev pub odd : (Key → Bool) → List Action → Bool
odd p [] = false
odd p (stroke k up ∷ es) = differ (p k) (odd p es)
odd p (read ∷ es) = odd p es

differ_swap : (p q a : Bool) → differ p (differ q a) ≡ differ (differ q p) a
differ_swap true true true = refl
differ_swap true true false = refl
differ_swap true false a = refl
differ_swap false true a = refl
differ_swap false false a = refl

differ-false : (p : Bool) → differ p false ≡ p
differ-false true = refl
differ-false false = refl

abbrev bit : Bool → ℕ → ℕ
bit b n = if b then n else 0

-- The octet of the modifiers.
abbrev pub word : Bool → Bool → Bool → Bool → ℕ
word shift caps_lock alt ctrl = 0xc0 + bit shift 1 + bit caps_lock 2 + bit alt 4 + bit ctrl 8

xor-word :
    (a b c d : Bool)
    → (bit_xor (word a b c d) 1 ≡ word (not a) b c d)
      × (bit_xor (word a b c d) 2 ≡ word a (not b) c d)
      × (bit_xor (word a b c d) 4 ≡ word a b (not c) d)
      × (bit_xor (word a b c d) 8 ≡ word a b c (not d))
xor-word true true true true = (refl, refl, refl, refl)
xor-word true true true false = (refl, refl, refl, refl)
xor-word true true false true = (refl, refl, refl, refl)
xor-word true true false false = (refl, refl, refl, refl)
xor-word true false true true = (refl, refl, refl, refl)
xor-word true false true false = (refl, refl, refl, refl)
xor-word true false false true = (refl, refl, refl, refl)
xor-word true false false false = (refl, refl, refl, refl)
xor-word false true true true = (refl, refl, refl, refl)
xor-word false true true false = (refl, refl, refl, refl)
xor-word false true false true = (refl, refl, refl, refl)
xor-word false true false false = (refl, refl, refl, refl)
xor-word false false true true = (refl, refl, refl, refl)
xor-word false false true false = (refl, refl, refl, refl)
xor-word false false false true = (refl, refl, refl, refl)
xor-word false false false false = (refl, refl, refl, refl)

abbrev pick : {A P : Type 0} → Dec P → A → A → A
pick (yes e) a b = a
pick (no n) a b = b

-- The associator of a key, by the key.
abbrev own : List (Key × Associator AssociatorFunc) → Key → Associator AssociatorFunc
own [] k = nop
own ((j, a) ∷ rest) k = pick (Key-discrete j k) a (own rest k)

module _ (sdl : Key → ℕ) where
  abbrev pub input : Action → Input
  input (stroke k up) = event (record { key_up = up; scancode = sdl k })
  input read = get_char

  abbrev pub inputs : List Action → List Input
  inputs [] = []
  inputs (e ∷ es) = input e ∷ inputs es

module _ (sdl : Key → ℕ) (distinct : (k j : Key) → sdl k ≡ sdl j → k ≡ j) where
  choose :
      {A : Type 0} (j k : Key) (d : Dec (j ≡ k)) (a b : A)
      → (if sdl j == sdl k then a else b) ≡ pick d a b
  choose j k (yes e) a b = let same : sdl j ≡ sdl k = ap sdl e in ground arith
  choose j k (no n) a b = let other : sdl j ≢ sdl k = λ e. n (distinct j k e) in ground arith

  associated-own :
      (rest : List (Key × Associator AssociatorFunc)) (k : Key)
      → associated_in sdl rest (sdl k) ≡ own rest k
  associated-own [] k = refl
  associated-own ((j, a) ∷ rest) k =
      ap (λ (b : Associator AssociatorFunc). if sdl j == sdl k then a else b)
        (associated-own rest k)
      ∙ choose j k (Key-discrete j k) a (own rest k)

  -- The keys that toggle find their function in the table.
  toggling :
      (associated sdl (sdl lshift) ≡ func (some toggle_modifier))
      × (associated sdl (sdl rshift) ≡ func (some toggle_modifier))
      × (associated sdl (sdl capslock) ≡ func (some toggle_modifier))
      × (associated sdl (sdl lalt) ≡ func (some toggle_modifier))
      × (associated sdl (sdl ralt) ≡ func (some toggle_modifier))
      × (associated sdl (sdl lctrl) ≡ func (some toggle_modifier))
      × (associated sdl (sdl rctrl) ≡ func (some toggle_modifier))
  unfolding Key-discrete
  toggling = (
    associated-own associators lshift,
    associated-own associators rshift,
    associated-own associators capslock,
    associated-own associators lalt,
    associated-own associators ralt,
    associated-own associators lctrl,
    associated-own associators rctrl,
  )

  abbrev func_toggle : Associator AssociatorFunc
  func_toggle = func (some toggle_modifier)

  no_match :
      (code m : ℕ)
      → code ≢ sdl lshift
      → code ≢ sdl rshift
      → code ≢ sdl capslock
      → code ≢ sdl lalt
      → code ≢ sdl ralt
      → code ≢ sdl lctrl
      → code ≢ sdl rctrl
      → keyboard_toggle_modifier sdl code m ≡ m
  unfolding keyboard_toggle_modifier
  no_match code m n1 n2 n3 n4 n5 n6 n7 = ground arith

  apart :
      (code : ℕ) (k : Key)
      → associated sdl code ≢ func_toggle
      → associated sdl (sdl k) ≡ func_toggle
      → code ≢ sdl k
  apart code k other own e = other (ap (associated sdl) e ∙ own)

  -- The modifiers stay where the table does not name the function.
  no_toggle :
      (code m : ℕ) → associated sdl code ≢ func_toggle → keyboard_toggle_modifier sdl code m ≡ m
  no_toggle code m other =
      let (a, b, c, d, e, f, g) = toggling in
      no_match code m (apart code lshift other a) (apart code rshift other b)
        (apart code capslock other c) (apart code lalt other d) (apart code ralt other e)
        (apart code lctrl other f) (apart code rctrl other g)

  associate_toggles :
      (s : Keyboard) (e : KeyboardEvent) (a : Associator AssociatorFunc)
      → associated sdl e.scancode ≡ a
      → (associate sdl s e a).modifiers ≡ keyboard_toggle_modifier sdl e.scancode s.modifiers
  unfolding associate
  associate_toggles s e nop h = sym (no_toggle e.scancode s.modifiers (λ f. cc))
  associate_toggles s e (key code) h = ground (arith, no_toggle e.scancode s.modifiers (λ f. cc))
  associate_toggles s e (func none) h = sym (no_toggle e.scancode s.modifiers (λ f. cc))
  associate_toggles s e (func (some toggle_modifier)) h = refl

  event_toggles :
      (s : Keyboard) (e : KeyboardEvent)
      → (keyboard_handle_event sdl s e).modifiers
        ≡ keyboard_toggle_modifier sdl e.scancode s.modifiers
  unfolding keyboard_handle_event
  event_toggles s e =
      ap (λ (t : Keyboard). t.modifiers) (handle_from_lem sdl associators s e)
      ∙ associate_toggles s e (associated sdl e.scancode) refl

  -- What an event of a key does to the octet.
  key_toggles :
      (k : Key) (a b c d : Bool)
      → keyboard_toggle_modifier sdl (sdl k) (word a b c d)
        ≡ word
            (differ (is_shift k) a)
            (differ (is_caps_lock k) b)
            (differ (is_alt k) c)
            (differ (is_ctrl k) d)
  unfolding keyboard_toggle_modifier
  key_toggles lshift a b c d = ground (arith, xor-word a b c d)
  key_toggles rshift a b c d = ground (arith, xor-word a b c d)
  key_toggles capslock a b c d =
      ground (arith, xor-word a b c d, distinct capslock lshift, distinct capslock rshift)
  key_toggles lalt a b c d =
      ground (
        arith,
        xor-word a b c d,
        distinct lalt lshift,
        distinct lalt rshift,
        distinct lalt capslock,
      )
  key_toggles ralt a b c d =
      ground (
        arith,
        xor-word a b c d,
        distinct ralt lshift,
        distinct ralt rshift,
        distinct ralt capslock,
      )
  key_toggles lctrl a b c d = ground (
    arith,
    xor-word a b c d,
    distinct lctrl lshift,
    distinct lctrl rshift,
    distinct lctrl capslock,
    distinct lctrl lalt,
    distinct lctrl ralt,
  )
  key_toggles rctrl a b c d = ground (
    arith,
    xor-word a b c d,
    distinct rctrl lshift,
    distinct rctrl rshift,
    distinct rctrl capslock,
    distinct rctrl lalt,
    distinct rctrl ralt,
  )
  key_toggles k a b c d =
      no_match (sdl k) (word a b c d) (λ e. cc (distinct k lshift e))
        (λ e. cc (distinct k rshift e)) (λ e. cc (distinct k capslock e))
        (λ e. cc (distinct k lalt e)) (λ e. cc (distinct k ralt e)) (λ e. cc (distinct k lctrl e))
        (λ e. cc (distinct k rctrl e))

  get_keeps : (s : Keyboard) → (keyboard_get_char s).0.modifiers ≡ s.modifiers
  unfolding keyboard_get_char
  get_keeps s = ground arith

  shifted :
      (es : List Action) (s : Keyboard) (a b c d : Bool)
      → s.modifiers ≡ word a b c d
      → (perform_all sdl s (inputs sdl es)).0.modifiers
        ≡ word
            (differ (odd is_shift es) a)
            (differ (odd is_caps_lock es) b)
            (differ (odd is_alt es) c)
            (differ (odd is_ctrl es) d)
  unfolding perform_all perform
  shifted [] s a b c d h = h
  shifted (stroke k up ∷ es) s a b c d h =
      let e : KeyboardEvent = record { key_up = up; scancode = sdl k } in
      let next : (keyboard_handle_event sdl s e).modifiers
          ≡ word (differ (is_shift k) a) (differ (is_caps_lock k) b) (differ (is_alt k) c)
              (differ (is_ctrl k) d) =
        event_toggles s e ∙ ap (keyboard_toggle_modifier sdl (sdl k)) h ∙ key_toggles k a b c d in
      shifted es (keyboard_handle_event sdl s e) (differ (is_shift k) a) (differ (is_caps_lock k) b)
        (differ (is_alt k) c) (differ (is_ctrl k) d) next
      ∙ λ i.
          word (differ_swap (odd is_shift es) (is_shift k) a i)
            (differ_swap (odd is_caps_lock es) (is_caps_lock k) b i)
            (differ_swap (odd is_alt es) (is_alt k) c i)
            (differ_swap (odd is_ctrl es) (is_ctrl k) d i)
  shifted (read ∷ es) s a b c d h = shifted es (keyboard_get_char s).0 a b c d (get_keeps s ∙ h)

  -- If SDL's scancodes of the keys that keyboard.c names are distinct, then after any events of
  -- these keys and reads of the guest from the default modifiers, the modifiers' octet is 0xC0 with
  -- the shift, caps lock, alt and ctrl bit set exactly if an odd number of the events, presses or
  -- releases, were of the keys of that modifier.
  pub modifiers_lem :
      (es : List Action) (s : Keyboard)
      → s.modifiers ≡ keyboard_modifiers_default
      → (perform_all sdl s (inputs sdl es)).0.modifiers
        ≡ word (odd is_shift es) (odd is_caps_lock es) (odd is_alt es) (odd is_ctrl es)
  modifiers_lem es s h = shifted es s false false false false h ∙ λ i.
      word (differ-false (odd is_shift es) i) (differ-false (odd is_caps_lock es) i)
        (differ-false (odd is_alt es) i) (differ-false (odd is_ctrl es) i)
