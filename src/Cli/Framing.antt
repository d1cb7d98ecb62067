-- ===== src/Cli/Framing.antt =====
-- src/cli.c: the lines that a client sends.
use ceda_cemu.Base.{
  ℕ, ◌+◌, ◌≤◌, ◌≡◌, ◌≢◌, refl, ap, sym, ◌∙◌, true, false, ◌||◌, List, [], ◌∷◌, ◌++◌, ◌==◌, length,
  length-append, arith,
}
use mathlib.Core.Path.{fun_ext}
use mathlib.Core.List.{append_assoc, append-nil}
use ceda_cemu.Base.Outcome.{Outcome, ok, ◌>>=◌}
use ceda_cemu.Base.Text.{c_string}
use ceda_cemu.Cpu.{Z80, Machine}
use ceda_cemu.Cli.State.{Cli, Host, Debugger}
use ceda_cemu.Cli.Lines.{handle_string, cli_handle_incoming_data}

-- What ends a line: a newline, a carriage return before it, or one octet too many.
pub data Ending : Type 0 where
  newline return_newline : Ending
  cut : ℕ → Ending

pub record Sent : Type 0 where
  pub text : List ℕ
  pub ending : Ending

abbrev pub line_end : Ending → List ℕ
line_end newline = 0x0a ∷ []
line_end return_newline = 0x0d ∷ 0x0a ∷ []
line_end (cut c) = c ∷ []

abbrev pub octets_of : List Sent → List ℕ
octets_of [] = []
octets_of (l ∷ ls) = l.text ++ (line_end l.ending ++ octets_of ls)

-- No octet of the line ends it.
abbrev pub Plain : List ℕ → Type 0
Plain [] = Unit
Plain (c ∷ text) = (c ≢ 0) × (c ≢ 0x0a) × (c ≢ 0x0d) × Plain text

-- A line of at most 127 octets may end with a newline; only one of 127 is cut.
abbrev pub Ends : List ℕ → Ending → Type 0
Ends text newline = length text ≤ 127
Ends text return_newline = length text ≤ 127
Ends text (cut c) = (length text ≡ 127) × (c ≢ 0x0a) × (c ≢ 0x0d)

abbrev pub AllPlain : List Sent → Type 0
AllPlain [] = Unit
AllPlain (l ∷ ls) = Plain l.text × Ends l.text l.ending × AllPlain ls

Ends-short : (text : List ℕ) (ending : Ending) → Ends text ending → length text ≤ 127
Ends-short text newline h = h
Ends-short text return_newline h = h
Ends-short text (cut c) (h, lf, cr) = omega (arith, h)

c_string-Plain : (text : List ℕ) → Plain text → c_string text ≡ text
c_string-Plain [] p = refl
c_string-Plain (c ∷ text) (nul, lf, cr, p) = ground (arith, c_string-Plain text p)

module _ {Z W : Type 0} (lib : Z80 Z) (debugger : Debugger Z)
    (z80_run : ℕ → Machine Z W → Outcome (Machine Z W × ℕ)) (host : Host) where
  abbrev feed : Cli Z W → List ℕ → Outcome (Cli Z W)
  feed s buffer = cli_handle_incoming_data lib debugger z80_run host s buffer

  -- The lines one after the other, each whole.
  abbrev pub handle_all : Cli Z W → List Sent → Outcome (Cli Z W)
  handle_all s [] = ok s
  handle_all s (l ∷ ls) = do
    t ← handle_string lib debugger z80_run host (record s { line = l.text }) l.text
    handle_all (record t { line = [] }) ls

  -- An octet of a line that has room is added to it.
  feed-Plain :
      (text buffer : List ℕ) (s : Cli Z W)
      → Plain text
      → length s.line + length text ≤ 127
      → feed s (text ++ buffer) ≡ feed (record s { line = s.line ++ text }) buffer
  unfolding cli_handle_incoming_data
  feed-Plain [] buffer s p h =
      ap (λ (l : List ℕ). feed (record s { line = l }) buffer) (sym (append-nil s.line))
  feed-Plain (c ∷ text) buffer s (nul, lf, cr, p) h =
      let no_cr : (c == 0x0d) ≡ false = ground arith in
      let more : (c == 0x0a || length s.line == 127) ≡ false = ground arith in
      let step : feed s (c ∷ (text ++ buffer))
          ≡ feed (record s { line = s.line ++ c ∷ [] }) (text ++ buffer) =
        rw (no_cr, more, cli_handle_incoming_data) refl in
      step
      ∙ feed-Plain text buffer (record s { line = s.line ++ c ∷ [] }) p
          (omega (arith, length-append s.line (c ∷ []), h))
      ∙ ap (λ (l : List ℕ). feed (record s { line = l }) buffer) (append_assoc s.line (c ∷ []) text)

  feed_end :
      (ending : Ending) (buffer : List ℕ) (s : Cli Z W)
      → Ends s.line ending
      → feed s (line_end ending ++ buffer) ≡ (do
        t ← handle_string lib debugger z80_run host s (c_string s.line)
        feed (record t { line = [] }) buffer)
  unfolding cli_handle_incoming_data
  feed_end newline buffer s h = refl
  feed_end return_newline buffer s h = refl
  feed_end (cut c) buffer s (full, lf, cr) =
      let no_cr : (c == 0x0d) ≡ false = ground arith in
      let over : (c == 0x0a || length s.line == 127) ≡ true = ground (arith, full) in
      rw (no_cr, over, cli_handle_incoming_data) refl

  -- Data that consists of whole lines is handled as those lines, one after the other, if no line is
  -- begun: the octets of a line are anything but NUL, newline and carriage return, and it ends with
  -- a newline, with a carriage return before it or without, if it has at most 127 octets; if it has
  -- 127, any other octet ends it too, and is lost.
  pub cli_handle_incoming_data_lem :
      (ls : List Sent) (s : Cli Z W)
      → AllPlain ls
      → s.line ≡ []
      → cli_handle_incoming_data lib debugger z80_run host s (octets_of ls) ≡ handle_all s ls
  cli_handle_incoming_data_lem [] s p e = unfold cli_handle_incoming_data in refl
  cli_handle_incoming_data_lem (l ∷ ls) s (p, short, q) e =
      let u = record s { line = l.text } in
      feed-Plain l.text (line_end l.ending ++ octets_of ls) s p
        (ground (arith, e, Ends-short l.text l.ending short))
      ∙ ap
          (λ (k : List ℕ).
            feed (record s { line = k ++ l.text }) (line_end l.ending ++ octets_of ls))
          e
      ∙ feed_end l.ending (octets_of ls) u short
      ∙ ap
          (λ (k : List ℕ). do
            t ← handle_string lib debugger z80_run host u k
            feed (record t { line = [] }) (octets_of ls))
          (c_string-Plain l.text p)
      ∙ ap
          (λ (f : Cli Z W → Outcome (Cli Z W)). do
            t ← handle_string lib debugger z80_run host u l.text
            f t)
          (fun_ext (λ t. cli_handle_incoming_data_lem ls (record t { line = [] }) q refl))
