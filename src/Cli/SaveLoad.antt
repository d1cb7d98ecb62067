-- ===== src/Cli/SaveLoad.antt =====
-- src/cli.c, src/bus.c: a chunk of the memory in a file.
use ceda_cemu.Base.{
  ℕ, zero, suc, ◌+◌, ◌-◌, ◌*◌, ◌/◌, ◌%◌, ◌^◌, ◌≤◌, ◌<◌, ◌≡◌, refl, ap, sym, ◌∙◌, true, false, none,
  some, List, [], ◌∷◌, length, length-set, set, get_or, get_or-set_self, get_or-set_ne, take,
  take_all, ◌==◌, arith,
}
use ceda_cemu.Base.Outcome.{ok}
use ceda_cemu.Base.Text.{str_eq, str_eq_iff}
use ceda_cemu.Bus.{Memory, bus_mem_read, bus_mem_write, read_found, write_found}
use ceda_cemu.Cpu.{Z80}
use ceda_cemu.Tokenizer.{tokenizer_next_word, tokenizer_next_hex, parse_word}
use ceda_cemu.Tokenizer.Numbers.{Errno}
use ceda_cemu.Cli.State.{Cli, Host, memory, set_memory}
use ceda_cemu.Cli.Debugging.{bus_mem_readsome}
use ceda_cemu.Cli.Saving.{prg, load_octets, set_file, save_file, load_from, load_bytes, load_opened}

-- The dynamic RAM is all that the processor sees.
pub record AllRam (m : Memory) : Type 0 where
  pub switched : m.is_mem_switched ≡ true
  pub released : m.is_bios_rom_switched ≡ false
  pub size : length m.dynamic ≡ 65536

ram_read :
    (m : Memory) (a : ℕ)
    → AllRam m
    → a < 65536
    → bus_mem_read m (a % 2 ^ 16) ≡ ok (get_or m.dynamic a 0)
unfolding bus_mem_read read_found
ram_read m a v h = let e : a % 2 ^ 16 ≡ a = omega arith in rw e (ground (arith, v))

ram_write :
    (m : Memory) (a value : ℕ)
    → AllRam m
    → a < 65536
    → bus_mem_write m (a % 2 ^ 16) value ≡ ok (record m { dynamic = set m.dynamic a value })
unfolding bus_mem_write write_found
ram_write m a value v h = let e : a % 2 ^ 16 ≡ a = omega arith in rw e (ground (arith, v))

ram_stays :
    (m : Memory) (a value : ℕ) → AllRam m → AllRam (record m { dynamic = set m.dynamic a value })
ram_stays m a value v = record {
  switched = v.switched;
  released = v.released;
  size = length-set m.dynamic a value ∙ v.size;
}

-- A range can be read.
readable :
    (n : ℕ) (m : Memory) (a : ℕ)
    → AllRam m
    → a + n ≤ 65536
    → (octets : List ℕ) × (bus_mem_readsome m a n ≡ ok octets) × (length octets ≡ n)
unfolding bus_mem_readsome
readable zero m a v h = ([], refl, refl)
readable (suc n) m a v h =
    let (octets, e, l) = readable n m (a + 1) v (omega arith) in
    (get_or m.dynamic a 0 ∷ octets, rw (ram_read m a v (omega arith), e) refl, omega (arith, l))

-- What is loaded is read back, and the octets below it stay.
loaded :
    (octets : List ℕ) (m : Memory) (a : ℕ)
    → AllRam m
    → a + length octets ≤ 65536
    → (t : Memory) × (load_octets m a octets ≡ ok t)
      × (bus_mem_readsome t a (length octets) ≡ ok octets)
      × AllRam t
      × ((b : ℕ) → b < a → get_or t.dynamic b 0 ≡ get_or m.dynamic b 0)
unfolding load_octets bus_mem_readsome
loaded [] m a v h = (m, refl, refl, v, λ b k. refl)
loaded (c ∷ octets) m a v h =
    let n : Memory = record m { dynamic = set m.dynamic a c } in
    let (t, e, r, w, below) = loaded octets n (a + 1) (ram_stays m a c v) (omega arith) in
    let next : (a + 1) % 2 ^ 32 ≡ a + 1 = omega arith in
    let first : get_or t.dynamic a 0 ≡ c =
      below a (omega arith) ∙ get_or-set_self m.dynamic a c 0 (omega (arith, v.size)) in
    (
      t,
      rw (ram_write m a c v (omega arith), next) e,
      rw (ram_read t a w (omega arith), first, r) refl,
      w,
      λ b k. below b (omega arith) ∙ get_or-set_ne m.dynamic c 0 (omega arith),
    )

-- The file's first two octets are the address.
header : (start : ℕ) → start < 65536 → start % 256 + start / 256 % 256 * 256 ≡ start
header start h = omega arith

module _ {Z W : Type 0} (lib : Z80 Z) (host : Host) where
  -- What is left of the line behind the name is empty.
  no_address :
      (s : Cli Z W)
      → (errno : Errno) × (dst : ℕ) × (tokenizer_next_hex s.errno 0 (some [])
          ≡ ok (record { errno = errno; dst = dst; rest = none }))
  unfolding tokenizer_next_hex tokenizer_next_word parse_word
  no_address s = (s.errno, 0, refl)

  saved :
      (s : Cli Z W) (name octets : List ℕ) (start end : ℕ)
      → bus_mem_readsome (memory s) start (end - start) ≡ ok octets
      → length octets ≡ end - start
      → host.create name ≡ true
      → ((n : ℕ) → host.fwrite n ≡ n)
      → host.closes ≡ true
      → (t : Cli Z W) × (save_file host s name start end ≡ ok (t, none))
        × (t.files name ≡ some (record { bytes = prg start octets; seeks = true; closes = true }))
  unfolding save_file
  saved s name octets start end read size created written closed =
      let n = end - start + 2 in
      let t = set_file s name (prg start octets) in
      let all : take n (prg start octets) ≡ prg start octets =
        take_all (prg start octets) n (omega (arith, size)) in
      let same : (n == n) ≡ true = ground arith in
      let found : str_eq name name ≡ true = (str_eq_iff name name).1 refl in
      (t, rw (created, read, written n, same, closed, all) refl, rw found refl)

  restored :
      (u : Cli Z W) (octets : List ℕ) (start : ℕ) (m : Memory)
      → start < 65536
      → load_octets (memory u) start octets ≡ ok m
      → (r : Cli Z W) × (load_bytes lib false u false (some []) (prg start octets) ≡ ok (r, none))
        × (memory r ≡ m)
  unfolding load_bytes load_from
  restored u octets start m h e =
      let (errno, dst, q) = no_address u in
      let at : start % 2 ^ 32 ≡ start = omega arith in
      (
        set_memory (record u { errno = errno; prev_address = start % 2 ^ 16 }) m,
        rw (q, header start h, e) refl,
        refl,
      )

  -- If the dynamic RAM is all that the processor sees, when a range is saved and later when it is
  -- loaded, and the host creates the file, writes it whole and closes it, then saving the octets
  -- from `start` up to `end` succeeds, and loading the file, without an address on the line, puts
  -- the same octets back there.
  pub save_load :
      (s u : Cli Z W) (name : List ℕ) (start end : ℕ)
      → AllRam (memory s)
      → AllRam (memory u)
      → host.create name ≡ true
      → ((n : ℕ) → host.fwrite n ≡ n)
      → host.closes ≡ true
      → start ≤ end
      → end < 65536
      → (octets : List ℕ) × (bus_mem_readsome (memory s) start (end - start) ≡ ok octets)
        × (t : Cli Z W) × (save_file host s name start end ≡ ok (t, none))
        × (r : Cli Z W) × (load_opened lib false u false (some []) (t.files name) ≡ ok (r, none))
        × (bus_mem_readsome (memory r) start (end - start) ≡ ok octets)
  unfolding load_opened
  save_load s u name start end v w created written closed h k =
      let (octets, read, size) = readable (end - start) (memory s) start v (omega arith) in
      let (t, e, file) = saved s name octets start end read size created written closed in
      let (m, put, back, x, below) = loaded octets (memory u) start w (omega (arith, size)) in
      let (r, done, same) = restored u octets start m (omega arith) put in
      (
        octets,
        read,
        t,
        e,
        r,
        rw file done,
        ap (λ (x : Memory). bus_mem_readsome x start (end - start)) same
            ∙ ap (λ (n : ℕ). bus_mem_readsome m start n) (sym size)
            ∙ back,
      )
