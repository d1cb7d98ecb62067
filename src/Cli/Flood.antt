-- ===== src/Cli/Flood.antt =====
-- src/cli.c: the queue of messages is filled without a look at its room.
use ceda_cemu.Base.{
  ℕ, zero, suc, if◌then◌else◌, Bool-cases, inl, inr, some, ltb, ◌≤◌, ◌-◌, ◌+◌, ◌%◌, ◌<◌, ◌≡◌, refl,
  ap, ◌∙◌, sym, true, false, List, [], ◌∷◌, length, length-set, replicate, arith,
}
use ceda_cemu.Base.Outcome.{Fault, Outcome, ok, fault}
use ceda_cemu.Cpu.{Z80, Machine}
use ceda_cemu.Fifo.{Fifo, is_empty, push}
use ceda_cemu.Fifo.Refine.{IsValid}
use ceda_cemu.Cli.Text.{prompt}
use ceda_cemu.Cli.State.{Cli, Host, Debugger, new_string, free_string, cli_send_string}
use ceda_cemu.Cli.Lines.{run_line, handle_string, cli_handle_line, cli_handle_incoming_data}

-- So many prompts.
abbrev pub prompts : ℕ → Fifo (List ℕ) → Fifo (List ℕ)
prompts zero f = f
prompts (suc n) f = prompts n (push f prompt)

length-push : (f : Fifo (List ℕ)) (x : List ℕ) → length (push f x).buffer ≡ length f.buffer
unfolding push
length-push f x = length-set f.buffer f.tail x

tail-push :
    (f : Fifo (List ℕ)) (x : List ℕ)
    → length f.buffer ≡ 8
    → f.tail < 8
    → ((push f x).tail ≡ (f.tail + 1) % 8) × ((push f x).head ≡ f.head)
unfolding push
tail-push f x size h = (ground arith, refl)

prompts_tail :
    (n : ℕ) (f : Fifo (List ℕ))
    → length f.buffer ≡ 8
    → f.tail < 8
    → ((prompts n f).tail ≡ (f.tail + n) % 8) × ((prompts n f).head ≡ f.head)
prompts_tail zero f size h = (omega arith, refl)
prompts_tail (suc n) f size h =
    let (t, k) = tail-push f prompt size h in
    let (e, l) = prompts_tail n (push f prompt) (length-push f prompt ∙ size) (omega arith) in
    (omega arith, l ∙ k)

eight-empty :
    (f : Fifo (List ℕ))
    → length f.buffer ≡ 8
    → f.tail < 8
    → is_empty f ≡ true
    → is_empty (prompts 8 f) ≡ true
unfolding is_empty
eight-empty f size h e = let (t, k) = prompts_tail 8 f size h in ground arith

module _ {Z W : Type 0} (lib : Z80 Z) (debugger : Debugger Z)
    (z80_run : ℕ → Machine Z W → Outcome (Machine Z W × ℕ)) (host : Host) where
  abbrev feed : Cli Z W → List ℕ → Outcome (Cli Z W)
  feed s buffer = cli_handle_incoming_data lib debugger z80_run host s buffer

  abbrev idle : Cli Z W → Fifo (List ℕ) → ℕ → Cli Z W
  idle s f used = record s { line = []; last_line = some []; tx_fifo = f; strings = used }

  -- The line's own string is given back, the prompt's is not.
  newline_room :
      (s : Cli Z W) (f : Fifo (List ℕ)) (used : ℕ) (buffer : List ℕ)
      → used + 1 < 32
      → feed (idle s f used) (0x0a ∷ buffer) ≡ feed (idle s (push f prompt) (used + 1)) buffer
  unfolding cli_handle_incoming_data handle_string cli_handle_line run_line cli_send_string
      new_string free_string
  newline_room s f used buffer h =
      let line : ltb used 32 ≡ true = ground arith in
      let sent : ltb (used + 1) 32 ≡ true = ground arith in
      let back : used + 1 + 1 - 1 ≡ used + 1 = omega arith in rw (line, sent, back) refl

  newline_full :
      (s : Cli Z W) (f : Fifo (List ℕ)) (used : ℕ) (buffer : List ℕ)
      → 32 ≤ used + 1
      → feed (idle s f used) (0x0a ∷ buffer) ≡ fault Fault.assertion
  unfolding cli_handle_incoming_data handle_string cli_handle_line run_line cli_send_string
      new_string free_string
  newline_full s f used buffer h =
      let sent : ltb (used + 1) 32 ≡ false = ground arith in
      elim (Bool-cases (ltb used 32)) [ inl line ↦ rw (line, sent) refl | inr full ↦ rw full refl ]

  newlines :
      (n : ℕ) (s : Cli Z W) (f : Fifo (List ℕ)) (used : ℕ)
      → used < 32
      → feed (idle s f used) (replicate n 0x0a) ≡ (
          if ltb (used + n) 32 then ok (idle s (prompts n f) (used + n)) else fault Fault.assertion)
  newlines zero s f used h =
      let room : ltb (used + 0) 32 ≡ true = ground arith in
      let same : used + 0 ≡ used = omega arith in
      unfold cli_handle_incoming_data in rw (room, same) refl
  newlines (suc n) s f used h = elim (Bool-cases (ltb (used + 1) 32)) [
    | inl room ↦
        newline_room s f used (replicate n 0x0a) (ground (arith, room))
        ∙ newlines n s (push f prompt) (used + 1) (ground (arith, room))
        ∙ ap
            (λ (k : ℕ).
              if ltb k 32 then ok (idle s (prompts (suc n) f) k) else fault Fault.assertion)
            (omega arith)
    | inr full ↦
        let over : ltb (used + suc n) 32 ≡ false = ground (arith, full) in
        newline_full s f used (replicate n 0x0a) (ground (arith, full)) ∙ rw over refl
  ]

  flood :
      (s : Cli Z W) (f : Fifo (List ℕ)) (used : ℕ)
      → feed (idle s f used) (replicate 8 0x0a) ≡ (
          if ltb (used + 8) 32 then ok (idle s (prompts 8 f) (used + 8)) else fault Fault.assertion)
  flood s f used = elim (Bool-cases (ltb used 32)) [
    | inl room ↦ newlines 8 s f used (ground (arith, room))
    | inr full ↦
        let over : ltb (used + 8) 32 ≡ false = ground (arith, full) in
        newline_full s f used (replicate 7 0x0a) (ground (arith, full)) ∙ rw over refl
  ]

  -- If no line is begun, no message waits and the last command is empty, a packet of eight empty
  -- lines asks for eight prompts, and behind it the queue of messages is empty: none of them will
  -- be sent, and their eight strings stay in use. If that would leave no string of the 32 free, the
  -- program aborts instead.
  pub eight_prompts_lost :
      (s : Cli Z W)
      → s.line ≡ []
      → s.last_line ≡ some []
      → IsValid s.tx_fifo
      → length s.tx_fifo.buffer ≡ 8
      → is_empty s.tx_fifo ≡ true
      → (t : Fifo (List ℕ)) × (cli_handle_incoming_data lib debugger z80_run host s
            (replicate 8 0x0a)
          ≡ (if ltb (s.strings + 8) 32
              then ok (record s { tx_fifo = t; strings = s.strings + 8 })
              else fault Fault.assertion))
        × (t ≡ prompts 8 s.tx_fifo)
        × (is_empty t ≡ true)
  eight_prompts_lost s line last v size e =
      let start : s ≡ idle s s.tx_fifo s.strings =
        λ i. record s { line = line i; last_line = last i } in
      (
        prompts 8 s.tx_fifo,
        ap (λ (u : Cli Z W). feed u (replicate 8 0x0a)) start ∙ flood s s.tx_fifo s.strings ∙ λ i.
            if ltb (s.strings + 8) 32
            then ok (record s {
              line = sym line i;
              last_line = sym last i;
              tx_fifo = prompts 8 s.tx_fifo;
              strings = s.strings + 8;
            })
            else fault Fault.assertion,
        refl,
        eight-empty s.tx_fifo size (omega (arith, v.tail_in, size)) e,
      )
