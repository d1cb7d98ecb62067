-- ===== src/Tokenizer/Words.antt =====
-- src/tokenizer.c: the first word of a line.
use ceda_cemu.Base.{
  ℕ, zero, suc, ◌+◌, ◌-◌, ◌%◌, ◌^◌, ◌≤◌, ◌<◌, ◌≡◌, ◌≢◌, refl, ap, Bool, true, false, none, some,
  List, [], ◌∷◌, ◌++◌, length, length-append, take, ◌==◌, if◌then◌else◌, arith,
}
use native.Mathlib.Decide.{ℕ_discrete}
use ceda_cemu.Base.Outcome.{ok}
use ceda_cemu.Base.Text.{c_string, NoNul}
use ceda_cemu.Tokenizer.{space, scan, tokenizer_next_word}

-- The specification.
abbrev pub skip_spaces : List ℕ → List ℕ
skip_spaces [] = []
skip_spaces (c ∷ s) = if c == space then skip_spaces s else c ∷ s

abbrev pub first_word : List ℕ → List ℕ
first_word [] = []
first_word (c ∷ s) = if c == space then [] else c ∷ first_word s

-- What a scan of `src` gives with this room.
abbrev Reads : ℕ → List ℕ → List ℕ × List ℕ → Type 0
Reads room src (word, rest) =
    (c_string (word ++ 0 ∷ []) ≡ take room (first_word src))
    × (c_string (word ++ 0 ∷ []) ++ rest ≡ src)
    × (length word ≤ room)

-- One round of the loop, with room left.
scan_char :
    (room c : ℕ) (started : Bool) (src : List ℕ)
    → c ≢ space
    → scan (suc room) started (c ∷ src) ≡ (c ∷ (scan room true src).0, (scan room true src).1)
unfolding scan
scan_char room c started src h =
    let left : suc room - 1 ≡ room = omega arith in
    ground (arith, ap (λ (n : ℕ). scan n true src) left)

scan-space :
    (room : ℕ) (started : Bool) (src : List ℕ)
    → scan (suc room) started (space ∷ src)
      ≡ (if started then ([], space ∷ src) else scan (suc room) false src)
unfolding scan
scan-space room true src = ground arith
scan-space room false src = ground arith

scan_end : (room : ℕ) (started : Bool) → scan (suc room) started [] ≡ (0 ∷ [], [])
unfolding scan
scan_end room started = ground arith

Reads-char :
    (room c : ℕ) (src word rest : List ℕ)
    → c ≢ 0
    → c ≢ space
    → Reads room src (word, rest)
    → Reads (suc room) (c ∷ src) (c ∷ word, rest)
Reads-char room c src word rest nul other (first, all, small) = (
  ground (arith, ap (λ (l : List ℕ). c ∷ l) first),
  ground (arith, ap (λ (l : List ℕ). c ∷ l) all),
  omega arith,
)

scan_started : (src : List ℕ) (room : ℕ) → NoNul src → Reads room src (scan room true src)
scan_started [] zero n = unfold scan in (refl, refl, omega arith)
scan_started [] (suc room) n = rw (scan_end room true) (refl, refl, omega arith)
scan_started (c ∷ src) zero n = unfold scan in (refl, refl, omega arith)
scan_started (c ∷ src) (suc room) n = elim (ℕ_discrete c space) [
  | yes e ↦ rw (e, scan-space room true src) (refl, refl, omega arith)
  | no other ↦
      let (word, rest) = scan room true src in
      rw (scan_char room c true src other)
        (Reads-char room c src word rest n.0 other (scan_started src room n.1))
]

scan_leading :
    (src : List ℕ) (room : ℕ)
    → NoNul src
    → 0 < room
    → Reads room (skip_spaces src) (scan room false src)
scan_leading src zero n h = absurd (omega arith)
scan_leading [] (suc room) n h = rw (scan_end room false) (refl, refl, omega arith)
scan_leading (c ∷ src) (suc room) n h = elim (ℕ_discrete c space) [
  | yes e ↦ rw (e, scan-space room false src) (scan_leading src (suc room) n.1 (omega arith))
  | no other ↦
      let (word, rest) = scan room true src in
      let kept : skip_spaces (c ∷ src) ≡ c ∷ src = ground arith in
      rw (kept, scan_char room c false src other)
        (Reads-char room c src word rest n.0 other (scan_started src room n.1))
]

-- A line that is empty has no word. For a destination of at least two octets, the word of any other
-- line is the first run of octets other than spaces (the empty word, and not NULL, for a line of
-- spaces only), cut off to one octet less than the destination, and the word and what is left make
-- up the line behind its leading spaces. With the NULs that end it, the word fits the destination.
pub next_word_lem :
    (c : ℕ) (src : List ℕ) (size : ℕ)
    → NoNul (c ∷ src)
    → 2 ≤ size
    → size < 2 ^ 64
    → (tokenizer_next_word (some []) size ≡ ok none)
      × (word : List ℕ) × (rest : List ℕ) × (tokenizer_next_word (some (c ∷ src)) size
          ≡ ok (some (word, rest)))
      × (c_string word ≡ take (size - 1) (first_word (skip_spaces (c ∷ src))))
      × (c_string word ++ rest ≡ skip_spaces (c ∷ src))
      × (length word ≤ size)
unfolding tokenizer_next_word
next_word_lem c src size n h w =
    let room : (size + 2 ^ 64 - 1) % 2 ^ 64 ≡ size - 1 = omega arith in
    let (word, rest) = scan (size - 1) false (c ∷ src) in
    let (first, all, small) = scan_leading (c ∷ src) (size - 1) n (omega arith) in
    (
      refl,
      word ++ 0 ∷ [],
      rest,
      ap (λ (n : ℕ). let (word, rest) = scan n false (c ∷ src) in ok (some (word ++ 0 ∷ [], rest)))
          room,
      first,
      all,
      omega (arith, length-append word (0 ∷ [])),
    )

scan_le : (src : List ℕ) (room : ℕ) (b : Bool) → length (scan room b src).1 ≤ length src
unfolding scan
scan_le [] room b = ground arith
scan_le (c ∷ src) room true = ground (arith, scan_le src (room - 1) true)
scan_le (c ∷ src) room false = ground (arith, scan_le src (room - 1) true, scan_le src room false)

-- The scan of a line takes an octet.
pub scan_takes :
    (c : ℕ) (src : List ℕ) (room : ℕ) → 0 < room → length (scan room false (c ∷ src)).1 ≤ length src
unfolding scan
scan_takes c src room h = ground (arith, scan_le src (room - 1) true, scan_le src room false)
