-- ===== src/Main/Tests.antt =====
-- The main loop with modules that note what is called.
use ceda_cemu.Base.{
  ◌||◌, List, ◌==◌, Bool, ℕ, ◌+◌, ◌≡◌, refl, true, false, none, some, [], ◌∷◌, leb,
}
use ceda_cemu.Main.{CedaModule, Name, Calls, ceda_start, ceda_cleanup, ceda_run}
use ceda_cemu.Main.Loop.{failed_start}
use ceda_cemu.Main.Trace.{
  Event, started, restarted, polled, cleaned, resumed, configured, Handlers, noted, noted_calls,
  ceda_run_lem,
}

abbrev quiet : CedaModule ℕ
quiet = record { start = none; restart = none; poll = none; cleanup = none }

abbrev is_cli : Name → Bool
is_cli Name.mod_cli = true
is_cli m = false

abbrev is_gui : Name → Bool
is_gui Name.mod_gui = true
is_gui m = false

abbrev is_bus : Name → Bool
is_bus Name.mod_bus = true
is_bus m = false

-- The window cannot be opened.
abbrev headless : Name → CedaModule ℕ
headless Name.mod_cli = record quiet { poll = some (λ n. n + 1); cleanup = some (λ n. n + 100) }
headless Name.mod_gui = record quiet { start = some (λ n. (n, false)) }
headless m = quiet

abbrev calls : Calls ℕ
calls = record {
  is_quit = λ n. leb 2 n;
  check_restart = λ n. (n, false);
  go_on = λ n. n;
  conf_cleanup = λ n. n;
}

-- The command line and the bus are polled, the bus restarts, the window starts and both are cleaned
-- up; a restart is asked for in the first round, and the second quits.
abbrev handlers : Handlers
handlers = record {
  starts = λ m. is_gui m;
  restarts = λ m. is_bus m;
  polls = λ m. is_bus m || is_cli m;
  cleans = λ m. is_gui m || is_cli m;
}

abbrev cli_polls : List Event → ℕ
cli_polls [] = 0
cli_polls (polled Name.mod_cli ∷ l) = 1 + cli_polls l
cli_polls (e ∷ l) = cli_polls l

ceda_run_example :
    (ceda_run (noted handlers) (noted_calls (λ l. cli_polls l == 2) (λ l. cli_polls l == 1)) 1 []
      ≡ none)
    × (ceda_run (noted handlers) (noted_calls (λ l. cli_polls l == 2) (λ l. cli_polls l == 1)) 2 []
        ≡ some (
          started Name.mod_gui
              ∷ resumed
              ∷ polled Name.mod_cli
              ∷ polled Name.mod_bus
              ∷ restarted Name.mod_bus
              ∷ polled Name.mod_cli
              ∷ polled Name.mod_bus
              ∷ cleaned Name.mod_gui
              ∷ cleaned Name.mod_cli
              ∷ configured
              ∷ [],
          0,
        ))
ceda_run_example =
    ceda_run_lem handlers (λ l. cli_polls l == 2) (λ l. cli_polls l == 1) 1 0 refl (refl, _) refl

failed_start_example : ceda_run headless calls 5 0 ≡ some (100, 1)
unfolding ceda_start ceda_cleanup
failed_start_example =
    failed_start headless calls 5 (Name.mod_bios ∷ Name.mod_cli ∷ [])
      (Name.mod_bus ∷ Name.mod_cpu ∷ Name.mod_video ∷ Name.mod_speaker ∷ Name.mod_int
        ∷ Name.mod_timer ∷ Name.mod_serial ∷ Name.mod_sio2 ∷ Name.mod_upd8255 ∷ Name.mod_fdc
        ∷ Name.mod_ubus ∷ Name.mod_charmon ∷ [])
      Name.mod_gui (λ n. (n, false)) 0 0 0 refl refl refl refl
