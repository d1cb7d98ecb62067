-- ===== src/Cli/Media.antt =====
-- src/cli.c: the commands for the disk drives and the serial port.
use ceda_cemu.Base.{ℕ, Option, none, some, List, [], if◌then◌else◌}
use ceda_cemu.Base.Int.{ℤ}
use ceda_cemu.Base.Outcome.{Outcome, ok, ◌>>=◌}
use ceda_cemu.Base.Text.{codes, str_eq, c_string}
use ceda_cemu.Fdc.State.{Fdc}
use ceda_cemu.Floppy.{Units, floppy_load_image, floppy_unload_image}
use ceda_cemu.Serial.{Devices, serial_open, serial_close}
use ceda_cemu.Sio2.{Sio2}
use ceda_cemu.Tokenizer.{Parsed, tokenizer_next_int}
use ceda_cemu.Tokenizer.Numbers.{Errno}
use ceda_cemu.Cli.Text.{message, bad_argument}
use ceda_cemu.Cli.State.{
  Cli, Host, Answer, Handler, next_word, rest_of, word_of, say, done, set_errno,
}
use ceda_cemu.Cli.Debugging.{text_of}

-- `if (arg != NULL) tokenizer_next_int(&drive, arg);` with `drive` at 0.
abbrev drive_number : Errno → Option (List ℕ) → Outcome Parsed
drive_number errno none = ok (record { errno = errno; dst = 0; rest = none })
drive_number errno (some arg) = tokenizer_next_int errno 0 (some arg)

-- The word that `filename` holds: without a second one, it is still the first.
abbrev pub file_name : Option (List ℕ × List ℕ) → Option (List ℕ × List ℕ) → List ℕ
file_name first (some (word, rest)) = c_string word
file_name (some (word, rest)) none = c_string word
file_name none none = []

module _ {Z W : Type 0} where
  abbrev set_fdc : Cli Z W → Fdc Units → Cli Z W
  set_fdc s fdc = record s {
    machine = record s.machine { board = record s.machine.board { fdc = fdc } };
  }

  abbrev set_sio2 : Cli Z W → Sio2 Devices → Cli Z W
  set_sio2 s sio2 = record s {
    machine = record s.machine { board = record s.machine.board { sio2 = sio2 } };
  }

  -- `ret < 0` is reported.
  abbrev unless_negative : Cli Z W → ℤ → List ℕ → Answer Z W
  unless_negative s (ℤ.pos n) text = done s
  unless_negative s (ℤ.negsuc n) text = say s text

  unfoldable pub mount_file : Cli Z W → List ℕ → Parsed → Answer Z W
  mount_file s name drive = do
    (fdc, ret) ← floppy_load_image s.machine.board.fdc (s.files name) drive.dst
    unless_negative (set_fdc (set_errno s drive) fdc) ret (message "unable to open file")

  unfoldable pub mount_behind : Cli Z W → Option (List ℕ × List ℕ) → Answer Z W
  mount_behind s none = say s (message "no file specified")
  mount_behind s (some (word, rest)) = do
    second ← next_word (some rest)
    drive ← drive_number s.errno (rest_of second)
    mount_file s (file_name (some (word, rest)) second) drive

  unfoldable pub cli_mount : Handler Z W
  cli_mount s arg = do first ← next_word (some arg); mount_behind s first

  unfoldable pub cli_umount : Handler Z W
  cli_umount s arg = do
    first ← next_word (some arg)
    drive ← drive_number s.errno (rest_of first)
    (fdc, ret) ← floppy_unload_image s.machine.board.fdc drive.dst
    unless_negative (set_fdc (set_errno s drive) fdc) ret (message "unable to unload drive")

  -- `serial_open(0)`; what it returns is not looked at.
  unfoldable pub open_port : Host → Cli Z W → Answer Z W
  open_port host s = do
    (sio2, opened) ← serial_open s.machine.board.sio2 0 host.sockets
    done (set_sio2 s sio2)

  unfoldable pub close_port : Cli Z W → Answer Z W
  close_port s = do sio2 ← serial_close s.machine.board.sio2; done (set_sio2 s sio2)

  unfoldable pub serial_command : Host → Cli Z W → Option (List ℕ) → Answer Z W
  serial_command host s none = say s (bad_argument "missing command")
  serial_command host s (some word) =
      if str_eq word (codes "open")
      then open_port host s
      else if str_eq word (codes "close")
      then close_port s
      else say s (bad_argument "expected open or close")

  unfoldable pub cli_serial : Host → Handler Z W
  cli_serial host s arg = do
    first ← next_word (some arg)
    second ← next_word (rest_of first)
    serial_command host s (text_of (word_of second))
