-- ===== src/Main/Loop.antt =====
-- src/ceda.c: how the main loop begins and ends.
use ceda_cemu.Base.{
  ℕ, zero, suc, ◌+◌, ◌≡◌, refl, ap, sym, ◌∙◌, Bool, true, false, not, none, some, List, [], ◌∷◌,
  ◌++◌, if◌then◌else◌, Bool-cases, inl, inr, arith,
}
use ceda_cemu.Main.{
  CedaModule, Name, Calls, modules, call_start, ceda_start, ceda_poll, round, main_loop, shut_down,
  ended, ceda_run,
}

module _ {S : Type 0} (table : Name → CedaModule S) (calls : Calls S) where
  -- The state behind so many rounds.
  abbrev pub after : ℕ → S → S
  after zero s = s
  after (suc n) s = after n (round table calls s).0

  -- None of so many rounds ends the loop.
  abbrev pub GoesOn : ℕ → S → Type 0
  GoesOn zero s = Unit
  GoesOn (suc n) s = ((round table calls s).1 ≡ false) × GoesOn n (round table calls s).0

  loop_step :
      (n : ℕ) (s : S)
      → (round table calls s).1 ≡ false
      → main_loop table calls (suc n) s ≡ main_loop table calls n (round table calls s).0
  unfolding main_loop
  loop_step n s on = rw on refl

  loop_break :
      (n : ℕ) (s : S)
      → (round table calls s).1 ≡ true
      → main_loop table calls (suc n) s ≡ some (round table calls s).0
  unfolding main_loop
  loop_break n s off = rw off refl

  round_quits :
      (s : S)
      → calls.is_quit (ceda_poll table modules s) ≡ true
      → round table calls s ≡ (ceda_poll table modules s, true)
  unfolding round
  round_quits s quit = rw quit refl

  main_loop_skips :
      (n k : ℕ) (s : S)
      → GoesOn n s
      → main_loop table calls (n + k) s ≡ main_loop table calls k (after n s)
  main_loop_skips zero k s h = ap (λ j. main_loop table calls j s) (omega arith)
  main_loop_skips (suc n) k s (on, h) =
      let e : suc n + k ≡ suc (n + k) = omega arith in
      ap (λ j. main_loop table calls j s) e
      ∙ loop_step (n + k) s on
      ∙ main_loop_skips n k (round table calls s).0 h

  loop-GoesOn : (n : ℕ) (s : S) → GoesOn n s → main_loop table calls n s ≡ none
  loop-GoesOn n s h =
      ap (λ j. main_loop table calls j s) (omega arith)
      ∙ main_loop_skips n 0 s h
      ∙ unfold main_loop in refl

  loop_quits :
      (n more : ℕ) (s : S)
      → GoesOn n s
      → calls.is_quit (ceda_poll table modules (after n s)) ≡ true
      → main_loop table calls (n + suc more) s ≡ some (ceda_poll table modules (after n s))
  loop_quits n more s h quit =
      let last = round_quits (after n s) quit in
      main_loop_skips n (suc more) s h
      ∙ loop_break more (after n s) (ap (λ (r : S × Bool). r.1) last)
      ∙ ap (λ (r : S × Bool). some r.0) last

  start_stops :
      (front back : List Name) (m : Name) (start : S → S × Bool) (s t u : S)
      → ceda_start table front s ≡ (t, true)
      → (table m).start ≡ some start
      → start t ≡ (u, false)
      → ceda_start table (front ++ m ∷ back) s ≡ (u, false)
  unfolding ceda_start
  start_stops [] back m start s t u e f g =
      let same : s ≡ t = ap (λ (r : S × Bool). r.0) e in rw (f, same, g) refl
  start_stops (n ∷ front) back m start s t u e f g =
      elim (Bool-cases (call_start (table n).start s).1) [
        | inl began ↦
            let next = call_start (table n).start s in
            let step : ceda_start table (n ∷ front) s ≡ ceda_start table front next.0 =
              rw began refl in
            rw began (start_stops front back m start next.0 t u (sym step ∙ e) f g)
        | inr refused ↦
            let next = call_start (table n).start s in
            let step : ceda_start table (n ∷ front) s ≡ (next.0, false) = rw refused refl in
            let wrong : false ≡ true = ap (λ (r : S × Bool). r.1) (sym step ∙ e) in absurd (cc)
      ]

  run_started :
      (n : ℕ) (s t : S)
      → ceda_start table modules s ≡ (t, true)
      → ceda_run table calls n s ≡ ended table calls (main_loop table calls n (calls.go_on t))
  unfolding ceda_run
  run_started n s t e =
      ap
        (λ (r : S × Bool).
          if not r.1
          then some (shut_down table calls r.0, 1)
          else ended table calls (main_loop table calls n (calls.go_on r.0)))
        e

  -- If all modules start and none of the first `n` rounds ends the loop, the emulator is still
  -- running behind them; if in the next round the modules' polls leave a state in which the window
  -- or the command line wants to quit, then with any rounds from there on it ends with 0, after all
  -- modules have been cleaned up in that state.
  pub runs_until_quit :
      (s t : S) (n more : ℕ)
      → ceda_start table modules s ≡ (t, true)
      → GoesOn n (calls.go_on t)
      → calls.is_quit (ceda_poll table modules (after n (calls.go_on t))) ≡ true
      → (ceda_run table calls n s ≡ none)
        × (ceda_run table calls (n + suc more) s
            ≡ some (shut_down table calls (ceda_poll table modules (after n (calls.go_on t))), 0))
  runs_until_quit s t n more started on quit = (
    run_started n s t started ∙ ap (ended table calls) (loop-GoesOn n (calls.go_on t) on),
    run_started (n + suc more) s t started
        ∙ ap (ended table calls) (loop_quits n more (calls.go_on t) on quit),
  )

  -- If the modules before one start and that one refuses to, the emulator ends with 1: no later
  -- module is started and none is polled, but all are cleaned up.
  pub failed_start :
      (n : ℕ) (front back : List Name) (m : Name) (start : S → S × Bool) (s t u : S)
      → modules ≡ front ++ m ∷ back
      → ceda_start table front s ≡ (t, true)
      → (table m).start ≡ some start
      → start t ≡ (u, false)
      → ceda_run table calls n s ≡ some (shut_down table calls u, 1)
  unfolding ceda_run
  failed_start n front back m start s t u split e f g =
      let stopped : ceda_start table modules s ≡ (u, false) =
        ap (λ (ms : List Name). ceda_start table ms s) split
        ∙ start_stops front back m start s t u e f g in
      ap
        (λ (r : S × Bool).
          if not r.1
          then some (shut_down table calls r.0, 1)
          else ended table calls (main_loop table calls n (calls.go_on r.0)))
        stopped
