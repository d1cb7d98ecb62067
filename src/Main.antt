-- ===== src/Main.antt =====
-- src/ceda.c, src/module.h: the main loop, which starts, polls, restarts and cleans up the modules.
pub mod Loop
pub mod Trace
mod Tests
use ceda_cemu.Base.{
  ℕ, zero, suc, Bool, true, false, not, Option, none, some, List, [], ◌∷◌, if◌then◌else◌,
}

-- `CEDAModule`, over the state `S` of the program; `none` is NULL. `init` has run, and `remaining`
-- and `performance` only measure time.
pub record CedaModule (S : Type 0) : Type 0 where
  pub start : Option (S → S × Bool)
  pub restart : Option (S → S × Bool)
  pub poll : Option (S → S)
  pub cleanup : Option (S → S)

-- The static module structures of ceda.c.
pub data Name : Type 0 where
  mod_bios mod_bus mod_cpu mod_charmon mod_cli mod_fdc mod_gui mod_int : Name
  mod_serial mod_speaker mod_sio2 mod_timer mod_ubus mod_upd8255 mod_video : Name

-- `modules`
abbrev pub modules : List Name
modules =
    mod_bios ∷ mod_cli ∷ mod_gui ∷ mod_bus ∷ mod_cpu ∷ mod_video ∷ mod_speaker ∷ mod_int ∷ mod_timer
    ∷ mod_serial ∷ mod_sio2 ∷ mod_upd8255 ∷ mod_fdc ∷ mod_ubus ∷ mod_charmon ∷ []

-- What the loop calls of its modules besides their tables: `gui_isQuit() || cli_isQuit()`,
-- `cli_checkRestart`, `cpu_pause(false)` and `conf_cleanup`.
pub record Calls (S : Type 0) : Type 0 where
  pub is_quit : S → Bool
  pub check_restart : S → S × Bool
  pub go_on : S → S
  pub conf_cleanup : S → S

module _ {S : Type 0} where
  -- `if (start) { ... }`
  abbrev call_start : Option (S → S × Bool) → S → S × Bool
  call_start none s = (s, true)
  call_start (some start) s = start s

  abbrev call : Option (S → S) → S → S
  call none s = s
  call (some f) s = f s

  module _ (table : Name → CedaModule S) where
    unfoldable pub ceda_start : List Name → S → S × Bool
    ceda_start [] s = (s, true)
    ceda_start (m ∷ ms) s =
        let (t, started) = call_start (table m).start s in
        let rest = ceda_start ms t in if not started then (t, false) else rest

    unfoldable pub ceda_poll : List Name → S → S
    ceda_poll [] s = s
    ceda_poll (m ∷ ms) s = ceda_poll ms (call (table m).poll s)

    -- One module of `ceda_restart`, with `ret` from before; `true` in front is `break`.
    abbrev restart_one : Option (S → S × Bool) → S → Bool → Bool × S × Bool
    restart_one none s ret = (false, s, ret)
    restart_one (some restart) s ret = let (t, done) = restart s in (not done, t, done)

    unfoldable pub restart_from : List Name → S → Bool → S × Bool
    restart_from [] s ret = (s, ret)
    restart_from (m ∷ ms) s ret =
        let (break, t, done) = restart_one (table m).restart s ret in
        let rest = restart_from ms t done in if break then (t, done) else rest

    unfoldable pub ceda_restart : List Name → S → S × Bool
    ceda_restart ms s = restart_from ms s false

    -- From the last module to the first.
    unfoldable pub ceda_cleanup : List Name → S → S
    ceda_cleanup [] s = s
    ceda_cleanup (m ∷ ms) s = call (table m).cleanup (ceda_cleanup ms s)

    module _ (calls : Calls S) where
      -- A round of the loop of `ceda_run`; `true` is `break`.
      unfoldable pub round : S → S × Bool
      round s =
          let polled = ceda_poll modules s in
          let (t, restart) = calls.check_restart polled in
          let (u, restarted) = ceda_restart modules t in
          if calls.is_quit polled
          then (polled, true)
          else if restart
          then (u, not restarted)
          else (t, false)

      -- The loop, with at most so many rounds; `none` means that it goes on.
      unfoldable pub main_loop : ℕ → S → Option S
      main_loop zero s = none
      main_loop (suc rounds) s =
          let (t, break) = round s in
          let rest = main_loop rounds t in if break then some t else rest

      -- Behind `err:`.
      abbrev pub shut_down : S → S
      shut_down s = calls.conf_cleanup (ceda_cleanup modules s)

      abbrev pub ended : Option S → Option (S × ℕ)
      ended none = none
      ended (some s) = some (shut_down s, 0)

      unfoldable pub ceda_run : ℕ → S → Option (S × ℕ)
      ceda_run rounds s =
          let (t, started) = ceda_start modules s in
          let end = ended (main_loop rounds (calls.go_on t)) in
          if not started then some (shut_down t, 1) else end
