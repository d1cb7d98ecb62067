-- ===== src/Cli/Saving.antt =====
-- src/cli.c: the commands that save and load a chunk of the memory.
use ceda_cemu.Base.{
  ℕ, ◌+◌, ◌-◌, ◌*◌, ◌/◌, ◌%◌, ◌^◌, Bool, true, false, not, ◌||◌, ◌&&◌, Option, none, some, List, [],
  ◌∷◌, ◌++◌, ◌==◌, ltb, leb, if◌then◌else◌, take,
}
use ceda_cemu.Base.Outcome.{Outcome, ok, ◌>>=◌}
use ceda_cemu.Base.Text.{codes, str_eq, c_string}
use ceda_cemu.Bus.{Memory, bus_mem_write}
use ceda_cemu.Cpu.{Z80, cpu_goto}
use ceda_cemu.Floppy.{File}
use ceda_cemu.Tokenizer.{Parsed, tokenizer_next_hex}
use ceda_cemu.Cli.Text.{message, bad_argument, decimal}
use ceda_cemu.Cli.State.{
  Cli, Host, Answer, Handler, next_word, rest_of, word_of, is_some, number, say, done, set_errno,
  new_string, memory, set_memory,
}
use ceda_cemu.Cli.Debugging.{bus_mem_readsome, text_of, too_large}

-- The file that is written: the address, lower octet first, and the octets.
abbrev pub prg : ℕ → List ℕ → List ℕ
prg start octets = start % 256 ∷ start / 256 % 256 ∷ octets

-- The loop at the end of `cli_load_and_run`; `address` is an `unsigned int`.
unfoldable pub load_octets : Memory → ℕ → List ℕ → Outcome Memory
load_octets m address [] = ok m
load_octets m address (c ∷ octets) = do
  n ← bus_mem_write m (address % 2 ^ 16) c
  load_octets n ((address + 1) % 2 ^ 32) octets

abbrev load_address : Bool → ℕ → Parsed → ℕ → ℕ
load_address use_old prev_address given file_address =
    if use_old then prev_address else if is_some given.rest then given.dst else file_address

module _ {Z W : Type 0} where
  abbrev pub set_file : Cli Z W → List ℕ → List ℕ → Cli Z W
  set_file s name bytes = record s {
    files = λ other.
        if str_eq other name
        then some (record { bytes = bytes; seeks = true; closes = true })
        else s.files other;
  }

  -- `cli_save` behind its checks.
  unfoldable pub save_file : Host → Cli Z W → List ℕ → ℕ → ℕ → Answer Z W
  save_file host s name start end =
      if not (host.create name)
      then say s (codes "unable to open file: " ++ take 64 name ++ 0x0a ∷ [])
      else do
        octets ← bus_mem_readsome (memory s) start (end - start)
        let written = host.fwrite (end - start + 2)
        let t = set_file s name (take written (prg start octets))
        if not (written == end - start + 2)
            then say t (codes "fwrite returned: " ++ decimal written)
            else if not host.closes
            then say t (codes "fclose failed.")
            else done t

  abbrev save_range : Host → Cli Z W → List ℕ → ℕ → ℕ → Answer Z W
  save_range host s name start end =
      if leb 0x10000 start || leb 0x10000 end
      then say s (bad_argument "address must be 16 bit")
      else if ltb end start
      then say s (bad_argument "end address must be greater than start address")
      else save_file host s name start end

  unfoldable pub save_end : Host → Cli Z W → List ℕ → ℕ → Option ℕ → Answer Z W
  save_end host s name start none = say s (bad_argument "bad end address")
  save_end host s name start (some end) = save_range host s name start end

  unfoldable pub save_start : Host → Cli Z W → List ℕ → Option ℕ → Option (List ℕ) → Answer Z W
  save_start host s name none rest = say s (bad_argument "bad start address")
  save_start host s name (some start) rest = do
    end ← tokenizer_next_hex s.errno 0 rest
    save_end host (set_errno s end) name start (number end)

  unfoldable pub save_name : Host → Cli Z W → Option (List ℕ × List ℕ) → Answer Z W
  save_name host s none = say s (bad_argument "missing file name")
  save_name host s (some (name, rest)) = do
    start ← tokenizer_next_hex s.errno 0 (some rest)
    save_start host (set_errno s start) (c_string name) (number start) start.rest

  unfoldable pub cli_save : Host → Handler Z W
  cli_save host s arg = do
    first ← next_word (some arg)
    name ← next_word (rest_of first)
    save_name host s name

  -- `cli_load_and_run` behind the file's first two octets.
  unfoldable pub load_from : Z80 Z → Bool → Cli Z W → Bool → Parsed → ℕ → List ℕ → Answer Z W
  load_from lib run s use_old given file_address octets =
      let address = load_address use_old s.prev_address given file_address in
      let t = record s { prev_address = if use_old then s.prev_address else address % 2 ^ 16 } in
      let started = record t { machine = cpu_goto lib t.machine (address % 2 ^ 16) } in
      let u = if run then started else t in
      if not use_old && too_large 0x10000 (number given)
      then say s (bad_argument "address must be 16 bit")
      else do m ← load_octets (memory u) address octets; done (set_memory u m)

  unfoldable pub load_bytes : Z80 Z → Bool → Cli Z W → Bool → Option (List ℕ) → List ℕ → Answer Z W
  load_bytes lib run s use_old rest [] = say s (message "unable to read start address from file")
  load_bytes lib run s use_old rest (lo ∷ []) =
      say s (message "unable to read start address from file")
  load_bytes lib run s use_old rest (lo ∷ hi ∷ octets) = do
    given ← tokenizer_next_hex s.errno 0 rest
    let t = if use_old then s else set_errno s given
    load_from lib run t use_old given (lo + hi * 256) octets

  -- What `fopen` gives.
  unfoldable pub load_opened :
      Z80 Z → Bool → Cli Z W → Bool → Option (List ℕ) → Option File → Answer Z W
  load_opened lib run s use_old rest none = say s (message "unable to open file")
  load_opened lib run s use_old rest (some file) = load_bytes lib run s use_old rest file.bytes

  -- The old file name, if there is no new one.
  unfoldable pub load_old : Z80 Z → Bool → Cli Z W → Option (List ℕ) → Answer Z W
  load_old lib run s none = say s (bad_argument "missing filename")
  load_old lib run s (some name) = load_opened lib run s true none (s.files name)

  unfoldable pub load_named : Z80 Z → Bool → Cli Z W → Option (List ℕ × List ℕ) → Answer Z W
  load_named lib run s none = do
    old ← next_word s.prev_filename
    load_old lib run s (text_of (word_of old))
  load_named lib run s (some (word, rest)) =
      let name = c_string word in
      load_opened lib run (record s { prev_filename = some name }) false (some rest) (s.files name)

  -- `prev_filename`, which is made at the first call.
  abbrev make_filename : Cli Z W → Option (List ℕ) → Outcome (Cli Z W)
  make_filename s none = do t ← new_string s; ok (record t { prev_filename = some [] })
  make_filename s (some name) = ok s

  unfoldable pub cli_load_and_run : Z80 Z → Bool → Handler Z W
  cli_load_and_run lib run s arg = do
    t ← make_filename s s.prev_filename
    first ← next_word (some arg)
    name ← next_word (rest_of first)
    load_named lib run t name

  abbrev pub cli_load : Z80 Z → Handler Z W
  cli_load lib = cli_load_and_run lib false

  abbrev pub cli_run : Z80 Z → Handler Z W
  cli_run lib = cli_load_and_run lib true
