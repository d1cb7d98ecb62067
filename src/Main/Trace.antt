-- ===== src/Main/Trace.antt =====
-- src/ceda.c: the order in which the main loop calls its modules, noted in a log.
use ceda_cemu.Base.{
  ℕ, zero, suc, ◌+◌, ◌≡◌, refl, ap, sym, ◌∙◌, Bool, true, false, ◌||◌, Option, none, some, List, [],
  ◌∷◌, ◌++◌, if◌then◌else◌, Bool-cases, inl, inr,
}
use mathlib.Core.List.{append_assoc, append-nil}
use ceda_cemu.Main.{
  CedaModule, Name, Calls, modules, ceda_start, ceda_poll, restart_from, ceda_restart, ceda_cleanup,
  round, ceda_run,
}
use ceda_cemu.Main.Loop.{after, GoesOn, runs_until_quit}

-- A call of the main loop.
pub data Event : Type 0 where
  started restarted polled cleaned : Name → Event
  resumed configured : Event

-- Which of its handlers each module has.
pub record Handlers : Type 0 where
  pub starts : Name → Bool
  pub restarts : Name → Bool
  pub polls : Name → Bool
  pub cleans : Name → Bool

abbrev noting : Bool → Event → Option (List Event → List Event)
noting true e = some (λ l. l ++ e ∷ [])
noting false e = none

abbrev noting_success : Bool → Event → Option (List Event → List Event × Bool)
noting_success true e = some (λ l. (l ++ e ∷ [], true))
noting_success false e = none

-- Modules that only note that they are called, and succeed.
abbrev pub noted : Handlers → Name → CedaModule (List Event)
noted h m = record {
  start = noting_success (h.starts m) (started m);
  restart = noting_success (h.restarts m) (restarted m);
  poll = noting (h.polls m) (polled m);
  cleanup = noting (h.cleans m) (cleaned m);
}

-- Whether to quit and to restart depends on all that was called.
abbrev pub noted_calls : (List Event → Bool) → (List Event → Bool) → Calls (List Event)
noted_calls quits asks = record {
  is_quit = quits;
  check_restart = λ l. (l, asks l);
  go_on = λ l. l ++ resumed ∷ [];
  conf_cleanup = λ l. l ++ configured ∷ [];
}

-- The specification: the handlers of a list of modules, from the first on and from the last on.
abbrev pub forwards : (Name → Bool) → (Name → Event) → List Name → List Event
forwards has e [] = []
forwards has e (m ∷ ms) = (if has m then e m ∷ [] else []) ++ forwards has e ms

abbrev pub backwards : (Name → Bool) → (Name → Event) → List Name → List Event
backwards has e [] = []
backwards has e (m ∷ ms) = backwards has e ms ++ (if has m then e m ∷ [] else [])

abbrev pub some_has : (Name → Bool) → List Name → Bool
some_has has [] = false
some_has has (m ∷ ms) = has m || some_has has ms

or_true : (b : Bool) → (b || true) ≡ true
or_true true = refl
or_true false = refl

or_false : (b : Bool) → (b || false) ≡ b
or_false true = refl
or_false false = refl

if_pair :
    (b : Bool) (l k : List Event)
    → ◌≡◌ {A = List Event × Bool} (if b then (l, false) else (k, false)) (if b then l else k, false)
if_pair true l k = refl
if_pair false l k = refl

module _ (h : Handlers) where
  start_log :
      (ms : List Name) (l : List Event)
      → ceda_start (noted h) ms l ≡ (l ++ forwards h.starts started ms, true)
  unfolding ceda_start
  start_log [] l = ap (λ (k : List Event). (k, true)) (sym (append-nil l))
  start_log (m ∷ ms) l = elim (Bool-cases (h.starts m)) [
    | inl on ↦ rw on (
        start_log ms (l ++ started m ∷ [])
        ∙ ap (λ (k : List Event). (k, true))
            (append_assoc l (started m ∷ []) (forwards h.starts started ms)))
    | inr off ↦ rw off (start_log ms l)
  ]

  poll_log :
      (ms : List Name) (l : List Event) → ceda_poll (noted h) ms l ≡ l ++ forwards h.polls polled ms
  unfolding ceda_poll
  poll_log [] l = sym (append-nil l)
  poll_log (m ∷ ms) l = elim (Bool-cases (h.polls m)) [
    | inl on ↦ rw on (
        poll_log ms (l ++ polled m ∷ [])
        ∙ append_assoc l (polled m ∷ []) (forwards h.polls polled ms))
    | inr off ↦ rw off (poll_log ms l)
  ]

  restart_log :
      (ms : List Name) (l : List Event) (ret : Bool)
      → restart_from (noted h) ms l ret
        ≡ (l ++ forwards h.restarts restarted ms, ret || some_has h.restarts ms)
  unfolding restart_from
  restart_log [] l ret = λ i. (sym (append-nil l) i, sym (or_false ret) i)
  restart_log (m ∷ ms) l ret = elim (Bool-cases (h.restarts m)) [
    | inl on ↦ rw on (
        restart_log ms (l ++ restarted m ∷ []) true ∙ λ i. (
          append_assoc l (restarted m ∷ []) (forwards h.restarts restarted ms) i,
          sym (or_true ret) i,
        ))
    | inr off ↦ rw off (restart_log ms l ret)
  ]

  cleanup_log :
      (ms : List Name) (l : List Event)
      → ceda_cleanup (noted h) ms l ≡ l ++ backwards h.cleans cleaned ms
  unfolding ceda_cleanup
  cleanup_log [] l = sym (append-nil l)
  cleanup_log (m ∷ ms) l = elim (Bool-cases (h.cleans m)) [
    | inl on ↦ rw on (
        ap (λ (k : List Event). k ++ cleaned m ∷ []) (cleanup_log ms l)
        ∙ append_assoc l (backwards h.cleans cleaned ms) (cleaned m ∷ []))
    | inr off ↦ rw off (
        cleanup_log ms l
        ∙ ap (λ (k : List Event). l ++ k) (sym (append-nil (backwards h.cleans cleaned ms))))
  ]

  module _ (quits asks : List Event → Bool) where
    -- The log behind the start,
    abbrev pub start_events : List Event
    start_events = forwards h.starts started modules ++ resumed ∷ []

    -- behind the polls of a round,
    abbrev pub poll_events : List Event → List Event
    poll_events l = l ++ forwards h.polls polled modules

    -- behind a round that does not end the loop,
    abbrev pub round_events : List Event → List Event
    round_events l =
        if asks (poll_events l)
        then poll_events l ++ forwards h.restarts restarted modules
        else poll_events l

    -- and behind so many of them.
    abbrev pub rounds_events : ℕ → List Event → List Event
    rounds_events zero l = l
    rounds_events (suc n) l = rounds_events n (round_events l)

    -- In none of so many rounds from this log on is there a wish to quit.
    abbrev pub NoQuit : ℕ → List Event → Type 0
    NoQuit zero l = Unit
    NoQuit (suc n) l = (quits (poll_events l) ≡ false) × NoQuit n (round_events l)

    round_log :
        (l : List Event)
        → some_has h.restarts modules ≡ true
        → quits (poll_events l) ≡ false
        → round (noted h) (noted_calls quits asks) l ≡ (round_events l, false)
    unfolding round ceda_restart
    round_log l any stay =
        rw (poll_log modules l, stay, restart_log modules (poll_events l) false, any)
          (if_pair (asks (poll_events l)) (poll_events l ++ forwards h.restarts restarted modules)
            (poll_events l))

    rounds_log :
        (n : ℕ) (l : List Event)
        → some_has h.restarts modules ≡ true
        → NoQuit n l
        → GoesOn (noted h) (noted_calls quits asks) n l
          × (after (noted h) (noted_calls quits asks) n l ≡ rounds_events n l)
    rounds_log zero l any stay = (tt, refl)
    rounds_log (suc n) l any (stay, more) =
        let one = round_log l any stay in
        let (on, same) = rounds_log n (round_events l) any more in (rw one (refl, on), rw one same)

    -- With modules that note each call in a log and succeed, and at least one that can restart, the
    -- emulator's log is the starts from the first module to the last, then for each round the polls
    -- from the first to the last, and the restarts if one is asked for, and, behind the polls of
    -- the first round in which there is a wish to quit, the cleanups from the last module to the
    -- first; it then ends with 0, and not before. Which handlers a module has is arbitrary, and so
    -- is on what log there is a wish to quit or to restart.
    pub ceda_run_lem :
        (n more : ℕ)
        → some_has h.restarts modules ≡ true
        → NoQuit n start_events
        → quits (poll_events (rounds_events n start_events)) ≡ true
        → (ceda_run (noted h) (noted_calls quits asks) n [] ≡ none)
          × (ceda_run (noted h) (noted_calls quits asks) (n + suc more) []
              ≡ some (
                poll_events (rounds_events n start_events)
                    ++ backwards h.cleans cleaned modules
                    ++ configured ∷ [],
                0,
              ))
    ceda_run_lem n more any stay quit =
        let (on, same) = rounds_log n start_events any stay in
        let begun = start_log modules [] in
        let polls =
          poll_log modules (after (noted h) (noted_calls quits asks) n start_events)
          ∙ ap poll_events same in
        let (runs, ends) =
          runs_until_quit (noted h) (noted_calls quits asks) [] (forwards h.starts started modules)
            n more begun on (ap quits polls ∙ quit) in
        (
          runs,
          ends
              ∙ ap
                  (λ (l : List Event).
                    some (ceda_cleanup (noted h) modules l ++ configured ∷ [], 0))
                  polls
              ∙ ap (λ (l : List Event). some (l ++ configured ∷ [], 0))
                  (cleanup_log modules (poll_events (rounds_events n start_events))),
        )
