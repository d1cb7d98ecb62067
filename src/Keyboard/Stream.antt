-- ===== src/Keyboard/Stream.antt =====
-- src/keyboard.c: what the guest reads, as whole keystrokes.
use ceda_cemu.Base.{
  ℕ, ◌+◌, ◌-◌, ◌≤◌, ◌≡◌, refl, ap, ap₂, ◌∙◌, sym, true, false, Option, none, some, List, [], ◌∷◌,
  ◌++◌, length, length-set, leb, ltb, ◌==◌, if◌then◌else◌, arith, Bool-cases, inl, inr,
}
use mathlib.Core.List.{append_assoc, append-nil}
use ceda_cemu.Fifo.{Fifo, is_empty, is_full, push, pop, init, free, count}
use ceda_cemu.Fifo.Refine.{
  IsValid, contents, counters, push-IsValid, pop-IsValid, count-push, count-pop, push-contents,
  pop-contents,
}
use ceda_cemu.Keyboard.{
  Keyboard, KeyboardEvent, AssociatorFunc, associators, call_func, associate, handle_from,
  keyboard_handle_event, keyboard_get_char, keyboard_init,
}
use ceda_cemu.Keyboard.Keys.{Key, Associator, nop, key, func}

-- `ceda_keystroke_t`
pub record CedaKeystroke : Type 0 where
  pub key_code : ℕ
  pub modifiers : ℕ

-- What the emulator's window and the serial controller do to the keyboard.
pub data Input : Type 0 where
  event : KeyboardEvent → Input
  get_char : Input

abbrev pub answer : Option ℕ → List ℕ
answer none = []
answer (some c) = c ∷ []

abbrev pub octets : List CedaKeystroke → List ℕ
octets [] = []
octets (k ∷ ks) = k.key_code ∷ k.modifiers ∷ octets ks

pub record Valid (s : Keyboard) : Type 0 where
  pub ring : IsValid s.keyboard_serial_fifo
  pub size : length s.keyboard_serial_fifo.buffer ≡ 8

abbrev pub waiting : Keyboard → List ℕ
waiting s = contents 0 s.keyboard_serial_fifo

-- The specification counts the octets that wait, and keeps the modifiers.
pub record Desk : Type 0 where
  pub octets_waiting : ℕ
  pub held : ℕ

octets-append : (ks ls : List CedaKeystroke) → octets (ks ++ ls) ≡ octets ks ++ octets ls
octets-append [] ls = refl
octets-append (k ∷ ks) ls = ap (λ (l : List ℕ). k.key_code ∷ k.modifiers ∷ l) (octets-append ks ls)

length-push : (f : Fifo ℕ) (x : ℕ) → length (push f x).buffer ≡ length f.buffer
unfolding push
length-push f x = length-set f.buffer f.tail x

length-pop : (f : Fifo ℕ) → length (pop 0 f).1.buffer ≡ length f.buffer
unfolding pop
length-pop f = ground arith

module _ (f : Fifo ℕ) (a b : ℕ) (v : IsValid f) (room : 2 ≤ free f) where
  not_full : is_full f ≡ false
  not_full = ground (arith, counters 0 f v)

  not_full_next : is_full (push f a) ≡ false
  not_full_next =
      let w = push-IsValid 0 f a v in
      ground (
        arith,
        counters 0 f v,
        counters 0 (push f a) w,
        count-push 0 f a v not_full,
        length-push f a,
      )

  push_two :
      (contents 0 (push (push f a) b) ≡ contents 0 f ++ a ∷ b ∷ [])
      × (count (push (push f a) b) ≡ count f + 2)
      × IsValid (push (push f a) b)
      × (length (push (push f a) b).buffer ≡ length f.buffer)
  push_two =
      let w = push-IsValid 0 f a v in
      (
        push-contents 0 (push f a) b w not_full_next
            ∙ ap (λ (l : List ℕ). l ++ b ∷ []) (push-contents 0 f a v not_full)
            ∙ append_assoc (contents 0 f) (a ∷ []) (b ∷ []),
        omega (arith, count-push 0 f a v not_full, count-push 0 (push f a) b w not_full_next),
        push-IsValid 0 (push f a) b w,
        length-push (push f a) b ∙ length-push f a,
      )

started :
    (s : Keyboard)
    → length s.keyboard_serial_fifo.buffer ≡ 8
    → (waiting (keyboard_init s) ≡ 0 ∷ 0 ∷ 0 ∷ 0 ∷ [])
      × (count (keyboard_init s).keyboard_serial_fifo ≡ 4)
      × Valid (keyboard_init s)
unfolding keyboard_init
started s size =
    let f = init s.keyboard_serial_fifo in
    let v : IsValid f = unfold init in record { head_in = omega arith; tail_in = omega arith } in
    let n : count f ≡ 0 = unfold init count in ground arith in
    let same : length f.buffer ≡ 8 = unfold init in size in
    let (one, c, w, d) = push_two f 0 0 v (ground (arith, counters 0 f v)) in
    let g = push (push f 0) 0 in
    let (two, e, x, y) = push_two g 0 0 w (ground (arith, counters 0 g w)) in
    let none_waits : contents 0 f ≡ [] = rw n refl in
    (
      two
          ∙ ap (λ (l : List ℕ). l ++ 0 ∷ 0 ∷ [])
              (one ∙ ap (λ (l : List ℕ). l ++ 0 ∷ 0 ∷ []) none_waits),
      omega arith,
      record { ring = x; size = y ∙ d ∙ same },
    )

module _ (sdl : Key → ℕ) where
  unfoldable pub perform : Keyboard → Input → Keyboard × List ℕ
  perform s (event e) = (keyboard_handle_event sdl s e, [])
  perform s get_char = let (t, c) = keyboard_get_char s in (t, answer c)

  -- The octets that the guest gets, in order, and the state that is left.
  unfoldable pub perform_all : Keyboard → List Input → Keyboard × List ℕ
  perform_all s [] = (s, [])
  perform_all s (e ∷ es) =
      let (t, out) = perform s e in let (u, more) = perform_all t es in (u, out ++ more)

  -- The first associator of the scancode.
  abbrev pub associated_in : List (Key × Associator AssociatorFunc) → ℕ → Associator AssociatorFunc
  associated_in [] code = nop
  associated_in ((k, a) ∷ rest) code = if sdl k == code then a else associated_in rest code

  abbrev pub associated : ℕ → Associator AssociatorFunc
  associated code = associated_in associators code

  unfoldable pub react :
      Associator AssociatorFunc → KeyboardEvent → Desk → Desk × List CedaKeystroke
  react nop e d = (d, [])
  react (key code) e d =
      let stroke : CedaKeystroke = record { key_code = code; modifiers = d.held } in
      if e.key_up
      then (d, [])
      else if leb d.octets_waiting 5
      then (record d { octets_waiting = d.octets_waiting + 2 }, stroke ∷ [])
      else (d, [])
  react (func none) e d = (d, [])
  react (func (some f)) e d = (record d { held = call_func sdl f e.scancode d.held }, [])

  unfoldable pub desk_step : Desk → Input → Desk × List CedaKeystroke
  desk_step d (event e) = react (associated e.scancode) e d
  desk_step d get_char = (record d { octets_waiting = d.octets_waiting - 1 }, [])

  -- The keystrokes that are taken.
  unfoldable pub keystrokes : Desk → List Input → List CedaKeystroke
  keystrokes d [] = []
  keystrokes d (e ∷ es) = let (d', ks) = desk_step d e in ks ++ keystrokes d' es

  abbrev pub desk_of : Keyboard → Desk
  desk_of s = record { octets_waiting = count s.keyboard_serial_fifo; held = s.modifiers }

  -- What one input does to the state `s`, if it gives `out` and the keystrokes `ks` are taken.
  abbrev Agrees : Keyboard → Keyboard → List ℕ → Desk → List CedaKeystroke → Type 0
  Agrees s t out d ks = (out ++ waiting t ≡ waiting s ++ octets ks) × (desk_of t ≡ d) × Valid t

  pub handle_from_lem :
      (rest : List (Key × Associator AssociatorFunc)) (s : Keyboard) (e : KeyboardEvent)
      → handle_from sdl rest s e ≡ associate sdl s e (associated_in rest e.scancode)
  unfolding handle_from associate
  handle_from_lem [] s e = refl
  handle_from_lem ((k, a) ∷ rest) s e = ground (arith, handle_from_lem rest s e)

  associate-Agrees :
      (s : Keyboard) (e : KeyboardEvent) (a : Associator AssociatorFunc)
      → Valid s
      → let (d, ks) = react a e (desk_of s) in Agrees s (associate sdl s e a) [] d ks
  unfolding associate react
  associate-Agrees s e nop v = (sym (append-nil _), refl, v)
  associate-Agrees s e (key code) v = elim (Bool-cases e.key_up) [
    | inl up ↦ rw up (sym (append-nil _), refl, v)
    | inr down ↦ elim (Bool-cases (ltb (free s.keyboard_serial_fifo) 2)) [
      | inl full ↦
          let none_taken : leb (count s.keyboard_serial_fifo) 5 ≡ false =
            ground (arith, counters 0 s.keyboard_serial_fifo v.ring, v.size) in
          rw (down, full, none_taken) (sym (append-nil _), refl, v)
      | inr room ↦
          let f = s.keyboard_serial_fifo in
          let free_two : 2 ≤ free f = ground arith in
          let taken : leb (count f) 5 ≡ true = ground (arith, counters 0 f v.ring, v.size) in
          let (stored, more, valid, same) = push_two f code s.modifiers v.ring free_two in
          rw (down, room, taken)
            (
              stored,
              ap (λ (n : ℕ). record { octets_waiting = n; held = s.modifiers }) more,
              record { ring = valid; size = same ∙ v.size },
            )
    ]
  ]
  associate-Agrees s e (func none) v = (sym (append-nil _), refl, v)
  associate-Agrees s e (func (some f)) v =
      (sym (append-nil _), refl, record { ring = v.ring; size = v.size })

  perform-Agrees :
      (s : Keyboard) (i : Input)
      → Valid s
      → let (t, out) = perform s i in let (d, ks) = desk_step (desk_of s) i in Agrees s t out d ks
  unfolding perform desk_step
  perform-Agrees s (event e) v =
      unfold keyboard_handle_event in
      rw (handle_from_lem associators s e) (associate-Agrees s e (associated e.scancode) v)
  perform-Agrees s get_char v = elim (Bool-cases (is_empty s.keyboard_serial_fifo)) [
    | inl empty ↦
        let none_waits : count s.keyboard_serial_fifo ≡ 0 =
          ground (arith, counters 0 s.keyboard_serial_fifo v.ring) in
        unfold keyboard_get_char in
        rw empty (
          sym (append-nil _),
          ap (λ (n : ℕ). record { octets_waiting = n; held = s.modifiers }) (omega arith),
          v,
        )
    | inr full ↦
        let f = s.keyboard_serial_fifo in
        unfold keyboard_get_char in
        rw full (
          sym (pop-contents 0 f v.ring full) ∙ sym (append-nil _),
          ap (λ (n : ℕ). record { octets_waiting = n; held = s.modifiers })
              (count-pop 0 f v.ring full),
          record { ring = pop-IsValid 0 f v.ring; size = length-pop f ∙ v.size },
        )
  ]

  perform_all-Agrees :
      (es : List Input) (s : Keyboard)
      → Valid s
      → let (t, out) = perform_all s es in
        out ++ waiting t ≡ waiting s ++ octets (keystrokes (desk_of s) es)
  unfolding perform_all keystrokes
  perform_all-Agrees [] s v = sym (append-nil _)
  perform_all-Agrees (e ∷ es) s v =
      let (t, out) = perform s e in
      let (u, more) = perform_all t es in
      let (d, ks) = desk_step (desk_of s) e in
      let (same, at, w) = perform-Agrees s e v in
      let rest : more ++ waiting u ≡ waiting t ++ octets (keystrokes d es) =
        perform_all-Agrees es t w ∙ ap (λ d. waiting t ++ octets (keystrokes d es)) at in
      append_assoc out more (waiting u)
      ∙ ap (λ (l : List ℕ). out ++ l) rest
      ∙ sym (append_assoc out (waiting t) (octets (keystrokes d es)))
      ∙ ap (λ (l : List ℕ). l ++ octets (keystrokes d es)) same
      ∙ append_assoc (waiting s) (octets ks) (octets (keystrokes d es))
      ∙ ap (λ (l : List ℕ). waiting s ++ l) (sym (octets-append ks (keystrokes d es)))

  -- From `keyboard_init` on, with a buffer of eight octets, the octets that the guest has got and
  -- those that still wait are, in order, four NULs and then whole keystrokes: for each press of a
  -- key of the table that finds at most five octets waiting, the key's code and the modifiers
  -- toggled until then.
  pub whole_keystrokes :
      (s : Keyboard) (es : List Input)
      → length s.keyboard_serial_fifo.buffer ≡ 8
      → let (t, out) = perform_all (keyboard_init s) es in
        out ++ waiting t
        ≡ (0 ∷ 0 ∷ 0 ∷ 0 ∷ [])
          ++ octets (keystrokes (record { octets_waiting = 4; held = s.modifiers }) es)
  unfolding keyboard_init
  whole_keystrokes s es size =
      let (zeros, four, v) = started s size in
      perform_all-Agrees es (keyboard_init s) v
      ∙ ap₂
          (λ (l : List ℕ) (n : ℕ).
            l ++ octets (keystrokes (record { octets_waiting = n; held = s.modifiers }) es))
          zeros four
