-- ===== src/Cli/Lines.antt =====
-- src/cli.c: the table of commands, and how lines are made of what a client sends.
use ceda_cemu.Base.{
  ℕ, ◌-◌, true, false, ◌||◌, Option, none, some, List, [], ◌∷◌, ◌++◌, ◌==◌, if◌then◌else◌, length,
}
use ceda_cemu.Base.Outcome.{Outcome, ok, ◌>>=◌}
use ceda_cemu.Base.Text.{codes, str_eq, c_string}
use ceda_cemu.Cpu.{Z80, Machine}
use ceda_cemu.Cli.Text.{message, prompt}
use ceda_cemu.Cli.State.{
  Cli, Host, Debugger, Answer, Handler, line_buffer_size, next_word, word_of, say, new_string,
  free_string, cli_send_string,
}
use ceda_cemu.Cli.Debugging.{
  text_of, cli_quit, cli_reset, cli_break, cli_delete, cli_int, cli_pause, cli_continue, cli_goto,
  cli_reg, cli_step,
}
use ceda_cemu.Cli.Memory.{cli_read, cli_write, cli_in, cli_out, cli_dis}
use ceda_cemu.Cli.Saving.{cli_save, cli_load, cli_run}
use ceda_cemu.Cli.Media.{cli_mount, cli_umount, cli_serial}

-- `cli_command` without the handler.
pub record Entry : Type 0 where
  pub command : List ℕ
  pub help : List ℕ

-- `"\t%s\n\t\t%s\n\n"` for each.
abbrev help_lines : List Entry → List ℕ
help_lines [] = []
help_lines (e ∷ es) =
    0x09 ∷ e.command ++ 0x0a ∷ 0x09 ∷ 0x09 ∷ e.help ++ 0x0a ∷ 0x0a ∷ [] ++ help_lines es

abbrev entry : List ℕ → List ℕ → Entry
entry command help = record { command = command; help = help }

-- `cli_commands` without the handlers.
abbrev pub cli_entries : List Entry
cli_entries =
    entry (codes "dis") (codes "disassembly binary data")
    ∷ entry (codes "break") (codes "set or show cpu breakpoints")
    ∷ entry (codes "delete") (codes "delete cpu monitor/breakpoint")
    ∷ entry (codes "pause") (codes "pause cpu execution")
    ∷ entry (codes "continue") (codes "continue cpu execution")
    ∷ entry (codes "reg") (codes "show cpu registers")
    ∷ entry (codes "step") (codes "step one instruction")
    ∷ entry (codes "goto") (codes "override cpu program counter")
    ∷ entry (codes "int") (codes "trigger interrupt request")
    ∷ entry (codes "reset") (codes "perform an hard reset")
    ∷ entry (codes "read") (codes "read from memory")
    ∷ entry (codes "write") (codes "write to memory")
    ∷ entry (codes "in") (codes "read from io")
    ∷ entry (codes "out") (codes "write to io")
    ∷ entry (codes "mount") (codes "load floppy image in from specified drive (default is 0)")
    ∷ entry (codes "umount") (codes "unload floppy from specified drive (default is 0)")
    ∷ entry (codes "serial") (codes "open tcp socket to emulate serial port")
    ∷ entry (codes "load") (codes "load binary from file")
    ∷ entry (codes "run") (codes "load binary from file and run")
    ∷ entry (codes "save") (codes "save memory dump to file")
    ∷ entry (codes "quit") (codes "quit the emulator")
    ∷ entry (codes "help") (codes "show this help")
    ∷ []

-- The text of `last_line`.
abbrev pub last_text : Option (List ℕ) → List ℕ
last_text none = []
last_text (some text) = text

module _ {Z W : Type 0} where
  unfoldable pub cli_help : Handler Z W
  cli_help s arg = say s (help_lines cli_entries)

  -- The loop of `cli_handle_line` over a table of commands.
  abbrev pub find_handler : List (List ℕ × Handler Z W) → List ℕ → Option (Handler Z W)
  find_handler [] word = none
  find_handler ((command, handler) ∷ rest) word =
      if str_eq command word then some handler else find_handler rest word

  abbrev find_word : List (List ℕ × Handler Z W) → Option (List ℕ) → Option (Handler Z W)
  find_word table none = none
  find_word table (some word) = find_handler table word

  -- `cli_send_string` of the message, if there is one.
  abbrev pub respond : Cli Z W → Option (List ℕ) → Outcome (Cli Z W)
  respond s none = ok s
  respond s (some text) = do t ← cli_send_string s text; ok (free_string t)

  -- A handler with the string of its message `msg`: some handlers take it first of all and give it
  -- back if there is no message, the others take it when there is one.
  abbrev end_message : Cli Z W → Option (List ℕ) → Answer Z W
  end_message s none = ok (free_string s, none)
  end_message s (some text) = ok (s, some text)

  abbrev begin_message : Cli Z W → Option (List ℕ) → Answer Z W
  begin_message s none = ok (s, none)
  begin_message s (some text) = do t ← new_string s; ok (t, some text)

  abbrev pub message_first : Handler Z W → Handler Z W
  message_first handler s arg = do t ← new_string s; (u, text) ← handler t arg; end_message u text

  abbrev pub message_late : Handler Z W → Handler Z W
  message_late handler s arg = do (t, text) ← handler s arg; begin_message t text

  -- `last_line`, which is made at the first line.
  abbrev pub make_last : Cli Z W → Option (List ℕ) → Outcome (Cli Z W)
  make_last s none = do t ← new_string s; ok (record t { last_line = some [] })
  make_last s (some text) = ok s

  -- Behind the search: `line` is not empty.
  unfoldable pub run_handler : Cli Z W → List ℕ → Option (Handler Z W) → Outcome (Cli Z W)
  run_handler s line none = do
    t ← cli_send_string (record s { last_line = some [] }) (message "command not found")
    cli_send_string t prompt
  run_handler s line (some handler) = do
    (t, text) ← handler (record s { last_line = some line }) line
    u ← respond t text
    cli_send_string u prompt

  module _ (lib : Z80 Z) (debugger : Debugger Z)
      (z80_run : ℕ → Machine Z W → Outcome (Machine Z W × ℕ)) (host : Host) where
    -- `cli_commands`
    unfoldable pub cli_commands : List (List ℕ × Handler Z W)
    cli_commands =
        (codes "dis", message_first (cli_dis debugger))
        ∷ (codes "break", message_late cli_break)
        ∷ (codes "delete", message_first cli_delete)
        ∷ (codes "pause", message_late (cli_pause lib))
        ∷ (codes "continue", message_late (cli_continue lib))
        ∷ (codes "reg", message_late (cli_reg debugger))
        ∷ (codes "step", message_late (cli_step debugger lib z80_run))
        ∷ (codes "goto", message_late (cli_goto lib))
        ∷ (codes "int", message_late cli_int)
        ∷ (codes "reset", message_late cli_reset)
        ∷ (codes "read", message_first cli_read)
        ∷ (codes "write", message_first cli_write)
        ∷ (codes "in", message_first cli_in)
        ∷ (codes "out", message_first cli_out)
        ∷ (codes "mount", message_late cli_mount)
        ∷ (codes "umount", message_late cli_umount)
        ∷ (codes "serial", message_first (cli_serial host))
        ∷ (codes "load", message_first (cli_load lib))
        ∷ (codes "run", message_first (cli_run lib))
        ∷ (codes "save", message_first (cli_save host))
        ∷ (codes "quit", message_late cli_quit)
        ∷ (codes "help", message_late cli_help)
        ∷ []

    unfoldable pub run_line : Cli Z W → List ℕ → Outcome (Cli Z W)
    run_line s [] = cli_send_string s prompt
    run_line s (c ∷ line) = do
      first ← next_word (some (c ∷ line))
      run_handler s (c ∷ line) (find_word cli_commands (text_of (word_of first)))

    -- An empty line repeats the last one.
    unfoldable pub cli_handle_line : Cli Z W → List ℕ → Outcome (Cli Z W)
    cli_handle_line s [] = do t ← make_last s s.last_line; run_line t (last_text t.last_line)
    cli_handle_line s (c ∷ line) = do t ← make_last s s.last_line; run_line t (c ∷ line)

    -- `cli_handle_line` with the string that the line is put in.
    unfoldable pub handle_string : Cli Z W → List ℕ → Outcome (Cli Z W)
    handle_string s line = do t ← new_string s; u ← cli_handle_line t line; ok (free_string u)

    -- The loop of `cli_handle_incoming_data`.
    unfoldable pub cli_handle_incoming_data : Cli Z W → List ℕ → Outcome (Cli Z W)
    cli_handle_incoming_data s [] = ok s
    cli_handle_incoming_data s (c ∷ buffer) = elim (c == 0x0d) [
      | true ↦ cli_handle_incoming_data s buffer
      | false ↦ elim (c == 0x0a || length s.line == line_buffer_size - 1) [
        | true ↦ do
          t ← handle_string s (c_string s.line)
          cli_handle_incoming_data (record t { line = [] }) buffer
        | false ↦ cli_handle_incoming_data (record s { line = s.line ++ c ∷ [] }) buffer
      ]
    ]
