-- ===== src/Monitor/Slots.antt =====
-- `valid_breakpoints` counts the valid slots, and no operation of the interface can abort.
use ceda_cemu.Base.{
  ℕ, zero, suc, ◌+◌, ◌%◌, ◌^◌, ◌≤◌, ◌<◌, ◌≡◌, refl, Bool, true, false, Option, none, some, List, [],
  ◌∷◌, ◌==◌, ltb, if◌then◌else◌, get_or, set, length, length-set, arith,
}
use ceda_cemu.Base.Outcome.{Outcome, ok, ◌>>=◌}
use ceda_cemu.Monitor.{
  Kind, Monitor, Monitors, no_monitor, static_monitors, accepts_value, new_monitor, fill_free,
  strip, monitor_add, monitor_delete, check_from, monitor_check, add_breakpoint,
  add_read_watchpoint, add_write_watchpoint, add_in_watchpoint, add_out_watchpoint,
  check_breakpoint, check_read_watchpoint, check_write_watchpoint, check_in_watchpoint,
  check_out_watchpoint,
}

abbrev installed : Monitor → ℕ
installed m = if m.valid then 1 else 0

abbrev pub valid_count : List Monitor → ℕ
valid_count [] = 0
valid_count (m ∷ ms) = installed m + valid_count ms

pub record Inv (s : Monitors) : Type 0 where
  pub slots : length s.monitors ≡ 8
  pub counted : s.valid_breakpoints ≡ valid_count s.monitors

pub valid_count-le : (ms : List Monitor) → valid_count ms ≤ length ms
valid_count-le [] = omega arith
valid_count-le (m ∷ ms) = ground (arith, valid_count-le ms)

abbrev one_if : Bool → ℕ
one_if b = if b then 1 else 0

length-fill_free : (ms : List Monitor) (new : Monitor) → length (fill_free ms new).0 ≡ length ms
unfolding fill_free
length-fill_free [] new = refl
length-fill_free (m ∷ ms) new = ground (arith, length-fill_free ms new)

valid_count-fill_free :
    (ms : List Monitor) (new : Monitor)
    → new.valid ≡ true
    → valid_count (fill_free ms new).0 ≡ valid_count ms + one_if (fill_free ms new).1
unfolding fill_free
valid_count-fill_free [] new h = refl
valid_count-fill_free (m ∷ ms) new h = ground (arith, valid_count-fill_free ms new h)

-- A free slot is found exactly when there is one.
fill_free-added :
    (ms : List Monitor) (new : Monitor) → (fill_free ms new).1 ≡ ltb (valid_count ms) (length ms)
unfolding fill_free
fill_free-added [] new = refl
fill_free-added (m ∷ ms) new = ground (arith, fill_free-added ms new, valid_count-le ms)

valid_count-set :
    (ms : List Monitor) (i : ℕ) (m : Monitor)
    → i < length ms
    → valid_count (set ms i m) + installed (get_or ms i no_monitor) ≡ valid_count ms + installed m
valid_count-set [] i m h = absurd (omega arith)
valid_count-set (x ∷ ms) zero m h = omega arith
valid_count-set (x ∷ ms) (suc i) m h = omega (arith, valid_count-set ms i m (omega arith))

length-check_from :
    (ms : List Monitor) (kind : Kind) (address : ℕ) (value : Option ℕ)
    → length (check_from ms kind address value).0 ≡ length ms
unfolding check_from
length-check_from [] kind address value = refl
length-check_from (m ∷ ms) kind address value =
    ground (arith, length-check_from ms kind address value)

valid_count-check_from :
    (ms : List Monitor) (kind : Kind) (address : ℕ) (value : Option ℕ)
    → valid_count (check_from ms kind address value).0 ≡ valid_count ms
unfolding check_from
valid_count-check_from [] kind address value = refl
valid_count-check_from (m ∷ ms) kind address value =
    ground (arith, valid_count-check_from ms kind address value)

pub add-Inv :
    (s : Monitors) (kind : Kind) (address : ℕ) (value : Option ℕ)
    → Inv s
    → accepts_value kind value ≡ true
    → (t : Monitors) × (monitor_add s kind address value ≡ ok (t, ltb (valid_count s.monitors) 8))
      × Inv t
unfolding monitor_add
add-Inv s kind address value v h =
    let new = new_monitor kind address value in
    let filled = fill_free s.monitors new in
    let count = if filled.1 then (s.valid_breakpoints + 1) % 2 ^ 32 else s.valid_breakpoints in
    (
      record { monitors = filled.0; valid_breakpoints = count },
      ground (arith, fill_free-added s.monitors new),
      ground (
        arith,
        valid_count-le s.monitors,
        length-fill_free s.monitors new,
        valid_count-fill_free s.monitors new refl,
      ),
    )

delete-Inv : (s : Monitors) (index : ℕ) → Inv s → Inv (monitor_delete s index).0
unfolding monitor_delete
delete-Inv s index v =
    let m = get_or s.monitors index no_monitor in
    let cleared : Monitor = record m { valid = false } in
    ground (
      arith,
      valid_count-le s.monitors,
      length-set s.monitors index cleared,
      valid_count-set s.monitors index cleared,
    )

check-Inv :
    (s : Monitors) (kind : Kind) (address : ℕ) (value : Option ℕ)
    → Inv s
    → accepts_value kind value ≡ true
    → (t : Monitors) × (hit : Bool) × (monitor_check s kind address value ≡ ok (t, hit)) × Inv t
unfolding monitor_check
check-Inv s kind address value v h =
    let stripped = strip kind address in
    let found = check_from s.monitors kind stripped value in
    let none_set = s.valid_breakpoints == 0 in
    (
      if none_set then s else record s { monitors = found.0 },
      if none_set then false else found.1,
      ground arith,
      ground (
        arith,
        length-check_from s.monitors kind stripped value,
        valid_count-check_from s.monitors kind stripped value,
      ),
    )

-- What the debugger and the processor's hooks ask for.
pub data Action : Type 0 where
  break_at read_at in_at : ℕ → Action
  write_at out_at : ℕ → Option ℕ → Action
  remove fetching reading taking : ℕ → Action
  writing giving : ℕ → ℕ → Action

unfoldable pub perform : Monitors → Action → Outcome (Monitors × Bool)
perform s (Action.break_at address) = add_breakpoint s address
perform s (Action.read_at address) = add_read_watchpoint s address
perform s (Action.in_at address) = add_in_watchpoint s address
perform s (Action.write_at address value) = add_write_watchpoint s address value
perform s (Action.out_at address value) = add_out_watchpoint s address value
perform s (Action.remove index) = ok (monitor_delete s index)
perform s (Action.fetching address) = check_breakpoint s address
perform s (Action.reading address) = check_read_watchpoint s address
perform s (Action.taking address) = check_in_watchpoint s address
perform s (Action.writing address value) = check_write_watchpoint s address value
perform s (Action.giving address value) = check_out_watchpoint s address value

unfoldable pub perform_all : Monitors → List Action → Outcome Monitors
perform_all s [] = ok s
perform_all s (a ∷ rest) = do (t, _) ← perform s a; perform_all t rest

abbrev Succeeds : Outcome (Monitors × Bool) → Type 0
Succeeds m = (t : Monitors) × (b : Bool) × (m ≡ ok (t, b)) × Inv t

added-Succeeds :
    (s : Monitors) (kind : Kind) (address : ℕ) (value : Option ℕ)
    → Inv s
    → accepts_value kind value ≡ true
    → Succeeds (monitor_add s kind address value)
added-Succeeds s kind address value v h =
    let (t, e, w) = add-Inv s kind address value v h in (t, ltb (valid_count s.monitors) 8, e, w)

perform-Inv : (s : Monitors) (a : Action) → Inv s → Succeeds (perform s a)
unfolding perform add_breakpoint add_read_watchpoint add_write_watchpoint add_in_watchpoint
    add_out_watchpoint check_breakpoint check_read_watchpoint check_write_watchpoint
    check_in_watchpoint check_out_watchpoint accepts_value
perform-Inv s (Action.break_at address) v = added-Succeeds s Kind.exec address none v refl
perform-Inv s (Action.read_at address) v = added-Succeeds s Kind.read_mem address none v refl
perform-Inv s (Action.in_at address) v = added-Succeeds s Kind.read_io address none v refl
perform-Inv s (Action.write_at address value) v =
    added-Succeeds s Kind.write_mem address value v refl
perform-Inv s (Action.out_at address value) v = added-Succeeds s Kind.write_io address value v refl
perform-Inv s (Action.remove index) v =
    let (t, b) = monitor_delete s index in (t, b, refl, delete-Inv s index v)
perform-Inv s (Action.fetching address) v = check-Inv s Kind.exec address none v refl
perform-Inv s (Action.reading address) v = check-Inv s Kind.read_mem address none v refl
perform-Inv s (Action.taking address) v = check-Inv s Kind.read_io address none v refl
perform-Inv s (Action.writing address value) v =
    check-Inv s Kind.write_mem address (some value) v refl
perform-Inv s (Action.giving address value) v =
    check-Inv s Kind.write_io address (some value) v refl

perform_all-Inv :
    (actions : List Action) (s : Monitors)
    → Inv s
    → (t : Monitors) × (perform_all s actions ≡ ok t) × Inv t
unfolding perform_all
perform_all-Inv [] s v = (s, refl, v)
perform_all-Inv (a ∷ actions) s v =
    let (t, b, e, w) = perform-Inv s a v in
    let (u, e', w') = perform_all-Inv actions t w in (u, ground (arith, e, e'), w')

static-Inv : Inv static_monitors
unfolding static_monitors
static-Inv = ground arith

-- Any sequence of debugger commands and hook calls from the start runs without a failed assertion,
-- and afterwards `valid_breakpoints` is the number of the eight slots that are in use.
pub actions-Inv :
    (actions : List Action) → (t : Monitors) × (perform_all static_monitors actions ≡ ok t) × Inv t
actions-Inv actions = perform_all-Inv actions static_monitors static-Inv
