-- ===== src/Monitor.antt =====
-- src/monitor.c, src/monitor.h: breakpoints and watchpoints.
pub mod Slots
pub mod Hits
pub mod Resume
mod Tests
use ceda_cemu.Base.{
  ℕ, suc, ◌+◌, ◌-◌, ◌%◌, ◌^◌, bit_and, Bool, true, false, not, ◌&&◌, ◌||◌, Option, none, some, List,
  [], ◌∷◌, ◌==◌, leb, if◌then◌else◌, get_or, set, replicate,
}
use ceda_cemu.Base.Outcome.{Fault, Outcome, ok, fault, ◌>>=◌, ◌>>◌, check}

-- `monitor_kind_t`
pub data Kind : Type 0 where
  exec read_mem write_mem read_io write_io : Kind

abbrev pub same_kind : Kind → Kind → Bool
same_kind Kind.exec Kind.exec = true
same_kind Kind.read_mem Kind.read_mem = true
same_kind Kind.write_mem Kind.write_mem = true
same_kind Kind.read_io Kind.read_io = true
same_kind Kind.write_io Kind.write_io = true
same_kind _ _ = false

-- `Monitor`
pub record Monitor : Type 0 where
  pub valid : Bool
  pub kind : Kind
  pub address : ℕ
  pub skip : Bool
  pub bind_value : Bool
  pub value : ℕ

-- The static variables of monitor.c.
pub record Monitors : Type 0 where
  pub monitors : List Monitor
  pub valid_breakpoints : ℕ

-- BREAKPOINT_CNT
abbrev breakpoint_cnt : ℕ
breakpoint_cnt = 8

-- A slot of zeroed static memory.
abbrev pub no_monitor : Monitor
no_monitor = record {
  valid = false;
  kind = Kind.exec;
  address = 0;
  skip = false;
  bind_value = false;
  value = 0;
}

unfoldable pub static_monitors : Monitors
static_monitors = record { monitors = replicate breakpoint_cnt no_monitor; valid_breakpoints = 0 }

abbrev is_none : Option ℕ → Bool
is_none none = true
is_none (some v) = false

abbrev value_or : Option ℕ → ℕ → ℕ
value_or none d = d
value_or (some v) d = v

-- The three assertions of `monitor_add` and `monitor_check`: only a write carries a value.
unfoldable pub accepts_value : Kind → Option ℕ → Bool
accepts_value Kind.exec value = is_none value
accepts_value Kind.read_mem value = is_none value
accepts_value Kind.read_io value = is_none value
accepts_value _ value = true

abbrev pub new_monitor : Kind → ℕ → Option ℕ → Monitor
new_monitor kind address value = record {
  valid = true;
  kind = kind;
  address = address;
  skip = false;
  bind_value = not (is_none value);
  value = value_or value 0x55;
}

-- The loop of `monitor_add`: the first free slot, if any, is filled.
unfoldable pub fill_free : List Monitor → Monitor → List Monitor × Bool
fill_free [] new = ([], false)
fill_free (m ∷ ms) new =
    let (rest, added) = fill_free ms new in
    if not m.valid then (new ∷ ms, true) else (m ∷ rest, added)

unfoldable pub monitor_add : Monitors → Kind → ℕ → Option ℕ → Outcome (Monitors × Bool)
monitor_add s kind address value = do
  check (accepts_value kind value) Fault.assertion
  let (monitors, added) = fill_free s.monitors (new_monitor kind address value)
  let count = if added then (s.valid_breakpoints + 1) % 2 ^ 32 else s.valid_breakpoints
  ok (record { monitors = monitors; valid_breakpoints = count }, added)

unfoldable pub monitor_delete : Monitors → ℕ → Monitors × Bool
monitor_delete s index =
    let m = get_or s.monitors index no_monitor in
    if leb breakpoint_cnt index || not m.valid then (s, false) else (
      record {
        monitors = set s.monitors index (record m { valid = false });
        valid_breakpoints = (s.valid_breakpoints + 2 ^ 32 - 1) % 2 ^ 32;
      },
      true,
    )

-- `value && monitor->bind_value && monitor->value != *value`
unfoldable pub differs : Monitor → Option ℕ → Bool
differs m none = false
differs m (some v) = m.bind_value && not (m.value == v)

-- The conditions of the loop of `monitor_check`.
unfoldable pub triggers : Monitor → Kind → ℕ → Option ℕ → Bool
triggers m kind address value =
    m.valid && same_kind m.kind kind && (m.address == address) && not (differs m value)

abbrev pub is_exec : Kind → Bool
is_exec kind = same_kind kind Kind.exec

-- The loop of `monitor_check`.
unfoldable pub check_from : List Monitor → Kind → ℕ → Option ℕ → List Monitor × Bool
check_from [] kind address value = ([], false)
check_from (m ∷ ms) kind address value =
    let (rest, hit) = check_from ms kind address value in
    if not (triggers m kind address value)
    then (m ∷ rest, hit)
    else if not (is_exec kind)
    then (m ∷ ms, true)
    else if m.skip
    then (record m { skip = false } ∷ ms, false)
    else (record m { skip = true } ∷ ms, true)

-- The high octet of an I/O address is stripped.
unfoldable pub strip : Kind → ℕ → ℕ
strip Kind.read_io address = bit_and address 0xff
strip Kind.write_io address = bit_and address 0xff
strip _ address = address

unfoldable pub monitor_check : Monitors → Kind → ℕ → Option ℕ → Outcome (Monitors × Bool)
monitor_check s kind address value = do
  check (accepts_value kind value) Fault.assertion
  let (monitors, hit) = check_from s.monitors kind (strip kind address) value
  ok (if s.valid_breakpoints == 0 then (s, false) else (record s { monitors = monitors }, hit))

unfoldable pub add_breakpoint : Monitors → ℕ → Outcome (Monitors × Bool)
add_breakpoint s address = monitor_add s Kind.exec address none

unfoldable pub add_read_watchpoint : Monitors → ℕ → Outcome (Monitors × Bool)
add_read_watchpoint s address = monitor_add s Kind.read_mem address none

unfoldable pub add_write_watchpoint : Monitors → ℕ → Option ℕ → Outcome (Monitors × Bool)
add_write_watchpoint s address value = monitor_add s Kind.write_mem address value

unfoldable pub add_in_watchpoint : Monitors → ℕ → Outcome (Monitors × Bool)
add_in_watchpoint s address = monitor_add s Kind.read_io address none

unfoldable pub add_out_watchpoint : Monitors → ℕ → Option ℕ → Outcome (Monitors × Bool)
add_out_watchpoint s address value = monitor_add s Kind.write_io address value

unfoldable pub check_breakpoint : Monitors → ℕ → Outcome (Monitors × Bool)
check_breakpoint s address = monitor_check s Kind.exec address none

unfoldable pub check_read_watchpoint : Monitors → ℕ → Outcome (Monitors × Bool)
check_read_watchpoint s address = monitor_check s Kind.read_mem address none

unfoldable pub check_write_watchpoint : Monitors → ℕ → ℕ → Outcome (Monitors × Bool)
check_write_watchpoint s address value = monitor_check s Kind.write_mem address (some value)

unfoldable pub check_in_watchpoint : Monitors → ℕ → Outcome (Monitors × Bool)
check_in_watchpoint s address = monitor_check s Kind.read_io address none

unfoldable pub check_out_watchpoint : Monitors → ℕ → ℕ → Outcome (Monitors × Bool)
check_out_watchpoint s address value = monitor_check s Kind.write_io address (some value)
