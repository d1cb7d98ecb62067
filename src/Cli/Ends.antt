-- ===== src/Cli/Ends.antt =====
-- src/cli.c, src/tokenizer.c: the loop of `cli_write` ends.
use ceda_cemu.Base.{
  ℕ, zero, suc, ◌+◌, ◌%◌, ◌^◌, ◌≤◌, ◌<◌, ◌≡◌, ◌≢◌, inl, inr, Bool-cases, refl, false, Option, none,
  some, List, [], ◌∷◌, ◌++◌, length, leb, if◌then◌else◌, arith,
}
use ceda_cemu.Base.Outcome.{Fault, Outcome, ok, fault, ◌>>=◌}
use ceda_cemu.Bus.{
  Memory, Device, Bank, bus_mem_write, bus_mem_slots, find_write, write_found, write_device,
  video_ram_write,
}
use ceda_cemu.Tokenizer.{Parsed, scan, parse_word, tokenizer_next_word, tokenizer_next_hex}
use ceda_cemu.Tokenizer.Numbers.{Errno}
use ceda_cemu.Tokenizer.Words.{scan_takes}
use ceda_cemu.Cli.State.{Cli, number, set_errno, set_memory, is_some, next_word, rest_of, memory}
use ceda_cemu.Cli.Memory.{Verdict, finished, go_on, write_step, write_values, write_with, cli_write}

-- How much is left to parse.
abbrev pub left : Option (List ℕ) → ℕ
left none = 0
left (some s) = length s

-- A number that is read takes at least an octet.
next_hex_takes :
    (errno : Errno) (dst : ℕ) (src : Option (List ℕ)) (p : Parsed) (rest : List ℕ)
    → tokenizer_next_hex errno dst src ≡ ok p
    → p.rest ≡ some rest
    → length rest < left src
unfolding tokenizer_next_hex tokenizer_next_word parse_word
next_hex_takes errno dst none p rest e r = cc
next_hex_takes errno dst (some []) p rest e r = cc
next_hex_takes errno dst (some (c ∷ src)) p rest e r = ground (arith, scan_takes c src 255)

-- Nothing but the loop itself reports that fuel ran out.
video_fueled :
    (m : Memory) (bank : Option Bank) (address value : ℕ)
    → video_ram_write m bank address value ≢ fault Fault.no_fuel
unfolding video_ram_write
video_fueled m none address value e = cc
video_fueled m (some Bank.char) address value e = ground arith
video_fueled m (some Bank.attr) address value e = ground arith

device_fueled :
    (m : Memory) (d : Device) (address value : ℕ)
    → write_device m d address value ≢ fault Fault.no_fuel
unfolding write_device
device_fueled m Device.auxram address value e = ground arith
device_fueled m Device.rom_bios address value e = cc
device_fueled m Device.video_ram address value e =
    ground (arith, video_fueled m m.mem address value)

found_fueled :
    (m : Memory) (found : Option (Device × ℕ)) (address value : ℕ)
    → write_found m found address value ≢ fault Fault.no_fuel
unfolding write_found
found_fueled m none address value e = ground arith
found_fueled m (some (d, own)) address value e = device_fueled m d own value e

memory_fueled :
    (m : Memory) (address value : ℕ) → bus_mem_write m address value ≢ fault Fault.no_fuel
unfolding bus_mem_write
memory_fueled m address value e =
    let found = if m.is_mem_switched then none else find_write bus_mem_slots address in
    ground (arith, found_fueled m found address value)

next_hex_ok :
    (errno : Errno) (dst : ℕ) (src : Option (List ℕ))
    → (p : Parsed) × (tokenizer_next_hex errno dst src ≡ ok p)
unfolding tokenizer_next_hex tokenizer_next_word
next_hex_ok errno dst none = (record { errno = errno; dst = dst; rest = none }, refl)
next_hex_ok errno dst (some []) = (parse_word 16 errno dst none, refl)
next_hex_ok errno dst (some (c ∷ src)) =
    let (word, rest) = scan 255 false (c ∷ src) in
    (parse_word 16 errno dst (some (word ++ 0 ∷ [], rest)), refl)

number_behind :
    (rest : Option (List ℕ)) (n v : ℕ)
    → (if is_some rest then some n else none) ≡ some v
    → (text : List ℕ) × (rest ≡ some text)
number_behind none n v q = absurd (cc)
number_behind (some text) n v q = (text, refl)

number_takes :
    (errno : Errno) (dst : ℕ) (src : Option (List ℕ)) (p : Parsed) (v : ℕ)
    → tokenizer_next_hex errno dst src ≡ ok p
    → number p ≡ some v
    → left p.rest < left src
number_takes errno dst src p v e q =
    let (text, r) = number_behind p.rest p.dst v q in rw r (next_hex_takes errno dst src p text e r)

-- What follows the command's own name is no longer than the line.
next_word_ok :
    (arg : List ℕ)
    → (o : Option (List ℕ × List ℕ)) × (left (rest_of o) ≤ length arg)
      × (next_word (some arg) ≡ ok o)
unfolding tokenizer_next_word
next_word_ok [] = (none, omega arith, refl)
next_word_ok (c ∷ arg) =
    let (word, rest) = scan 127 false (c ∷ arg) in
    (some (word ++ 0 ∷ [], rest), ground (arith, scan_takes c arg 127), refl)

module _ {Z W : Type 0} where
  abbrev Ends : Outcome (Option (Cli Z W × Option (List ℕ))) → Type 0
  Ends outcome = (outcome ≢ ok none) × (outcome ≢ fault Fault.no_fuel)

  -- What is behind the verdict of a round.
  abbrev go :
      (Cli Z W → Outcome (Option (Cli Z W × Option (List ℕ))))
      → Cli Z W × Verdict
      → Outcome (Option (Cli Z W × Option (List ℕ)))
  go k (t, finished text) = ok (some (t, text))
  go k (t, go_on) = k t

  stored-Ends :
      (s : Cli Z W) (k : Cli Z W → Outcome (Option (Cli Z W × Option (List ℕ))))
      (m : Outcome Memory)
      → m ≢ fault Fault.no_fuel
      → ((t : Cli Z W) → Ends (k t))
      → Ends (do r ← (do n ← m; ok (set_memory s n, go_on)); go k r)
  stored-Ends s k (ok n) h more = more (set_memory s n)
  stored-Ends s k (fault e) h more = (λ q. cc, λ q. h (ground arith))

  -- One round goes on only behind a number.
  round-Ends :
      (s : Cli Z W) (address i : ℕ) (n : Option ℕ)
      (k : Cli Z W → Outcome (Option (Cli Z W × Option (List ℕ))))
      → ((t : Cli Z W) (v : ℕ) → n ≡ some v → Ends (k t))
      → Ends (do r ← write_step s address i n; go k r)
  unfolding write_step
  round-Ends s address i none k more = (λ q. cc, λ q. cc)
  round-Ends s address i (some v) k more = elim (Bool-cases (leb 0x100 v)) [
    | inl large ↦ rw large (λ q. cc, λ q. cc)
    | inr small ↦
        let at = (address + i) % 2 ^ 16 in
        rw small (
          stored-Ends s k (bus_mem_write (memory s) at v) (memory_fueled (memory s) at v)
            (λ t. more t v refl))
  ]

  -- The loop ends within one round more than there are octets left.
  write_values-Ends :
      (fuel : ℕ) (s : Cli Z W) (address i : ℕ) (arg : Option (List ℕ))
      → left arg < fuel
      → Ends (write_values fuel s address i arg)
  unfolding write_values
  write_values-Ends zero s address i arg h = absurd (omega arith)
  write_values-Ends (suc fuel) s address i arg h =
      let (p, e) = next_hex_ok s.errno 0 arg in
      rw e (
        round-Ends (set_errno s p) address i (number p)
          (λ t. write_values fuel t address ((i + 1) % 2 ^ 16) p.rest)
          (λ t v q.
            write_values-Ends fuel t address ((i + 1) % 2 ^ 16) p.rest
              (let takes = number_takes s.errno 0 arg p v e q in omega (arith, takes))))

  write_with_ends :
      (s : Cli Z W) (n : Option ℕ) (fuel : ℕ) (rest : Option (List ℕ))
      → ((v : ℕ) → n ≡ some v → left rest < fuel)
      → write_with s n fuel rest ≢ fault Fault.no_fuel
  unfolding write_with
  write_with_ends s none fuel rest h e = cc
  write_with_ends s (some address) fuel rest h e =
      ground (arith, write_values-Ends fuel s address 0 rest (h address refl))

  -- The loop of the command `write` ends: whatever the line and the machine are, the command never
  -- reports that its fuel, the length of the line, ran out.
  pub cli_write_ends : (s : Cli Z W) (arg : List ℕ) → cli_write s arg ≢ fault Fault.no_fuel
  unfolding cli_write
  cli_write_ends s arg =
      let (o, short, w) = next_word_ok arg in
      let (p, e) = next_hex_ok s.errno 0 (rest_of o) in
      rw (w, e)
        (write_with_ends (set_errno s p) (number p) (length arg) p.rest (λ v q.
          let takes = number_takes s.errno 0 (rest_of o) p v e q in omega (arith, takes, short)))
