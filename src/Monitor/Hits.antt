-- ===== src/Monitor/Hits.antt =====
-- Which accesses a watchpoint stops.
use ceda_cemu.Base.{
  replicate, ℕ, zero, suc, ◌<◌, ◌≡◌, ◌↔◌, refl, Bool, true, false, Option, none, some, List, [],
  ◌∷◌, Bool-cases, inl, inr, length, get_elem?, arith,
}
use ceda_cemu.Base.Bits.{and_le_mask}
use ceda_cemu.Base.Outcome.{ok}
use ceda_cemu.Monitor.{
  Kind, Monitor, no_monitor, Monitors, same_kind, is_exec, static_monitors, accepts_value,
  new_monitor, fill_free, monitor_add, differs, triggers, strip, check_from, monitor_check,
  add_in_watchpoint, check_in_watchpoint,
}
use ceda_cemu.Monitor.Slots.{Inv, add-Inv, valid_count, valid_count-le}

-- The values that a monitor stops at: all, unless it is bound to one and one is written.
abbrev StopsAt : Monitor → Option ℕ → Type 0
StopsAt m none = Unit
StopsAt m (some v) = m.bind_value ≡ true → m.value ≡ v

-- A valid slot for this kind of access, this address and this value.
pub record Watches (m : Monitor) (kind : Kind) (address : ℕ) (value : Option ℕ) : Type 0 where
  pub installed : m.valid ≡ true
  pub same : m.kind ≡ kind
  pub here : m.address ≡ address
  pub stops : StopsAt m value

abbrev pub Watched : List Monitor → Kind → ℕ → Option ℕ → Type 0
Watched ms kind address value =
    (i : ℕ) × (m : Monitor) × (get_elem? ms i ≡ some m) × Watches m kind address value

same_kind_sound : (a b : Kind) → same_kind a b ≡ true → a ≡ b
same_kind_sound a b h = ground arith

same_kind_refl : (a : Kind) → same_kind a a ≡ true
same_kind_refl Kind.exec = refl
same_kind_refl Kind.read_mem = refl
same_kind_refl Kind.write_mem = refl
same_kind_refl Kind.read_io = refl
same_kind_refl Kind.write_io = refl

triggers_sound :
    (m : Monitor) (kind : Kind) (address : ℕ) (value : Option ℕ)
    → triggers m kind address value ≡ true
    → Watches m kind address value
unfolding triggers differs
triggers_sound m kind address none h = ground (arith, same_kind_sound m.kind kind)
triggers_sound m kind address (some v) h = ground (arith, same_kind_sound m.kind kind)

triggers_complete :
    (m : Monitor) (kind : Kind) (address : ℕ) (value : Option ℕ)
    → Watches m kind address value
    → triggers m kind address value ≡ true
unfolding triggers differs
triggers_complete m kind address none w = ground (arith, same_kind_refl kind, w.same)
triggers_complete m kind address (some v) w = ground (arith, same_kind_refl kind, w.same)

-- The loop finds a slot exactly when there is one.
check_from_sound :
    (ms : List Monitor) (kind : Kind) (address : ℕ) (value : Option ℕ)
    → is_exec kind ≡ false
    → (check_from ms kind address value).1 ≡ true
    → Watched ms kind address value
unfolding check_from
check_from_sound [] kind address value k h = absurd (ground arith)
check_from_sound (m ∷ ms) kind address value k h =
    elim (Bool-cases (triggers m kind address value)) [
      | inl t ↦ (0, m, refl, triggers_sound m kind address value t)
      | inr f ↦
          let (i, m', e, w) = check_from_sound ms kind address value k (ground arith) in
          (suc i, m', e, w)
    ]

check_from_complete :
    (ms : List Monitor) (kind : Kind) (address : ℕ) (value : Option ℕ) (i : ℕ) (m : Monitor)
    → is_exec kind ≡ false
    → get_elem? ms i ≡ some m
    → Watches m kind address value
    → (check_from ms kind address value).1 ≡ true
unfolding check_from
check_from_complete [] kind address value i m k e w = absurd (ground arith)
check_from_complete (x ∷ ms) kind address value zero m k e w =
    ground (arith, triggers_complete m kind address value w)
check_from_complete (x ∷ ms) kind address value (suc i) m k e w =
    ground (arith, check_from_complete ms kind address value i m k e w)

check_from-same :
    (ms : List Monitor) (kind : Kind) (address : ℕ) (value : Option ℕ)
    → is_exec kind ≡ false
    → (check_from ms kind address value).0 ≡ ms
unfolding check_from
check_from-same [] kind address value k = refl
check_from-same (m ∷ ms) kind address value k =
    ground (arith, check_from-same ms kind address value k)

check_none :
    (ms : List Monitor) (kind : Kind) (address : ℕ) (value : Option ℕ)
    → valid_count ms ≡ 0
    → (check_from ms kind address value).1 ≡ false
unfolding check_from triggers
check_none [] kind address value h = refl
check_none (m ∷ ms) kind address value h = ground (arith, check_none ms kind address value)

found :
    (s : Monitors) (kind : Kind) (address : ℕ) (value : Option ℕ)
    → Inv s
    → is_exec kind ≡ false
    → accepts_value kind value ≡ true
    → monitor_check s kind address value
      ≡ ok (s, (check_from s.monitors kind (strip kind address) value).1)
unfolding monitor_check
found s kind address value v k a = ground (
  arith,
  check_from-same s.monitors kind (strip kind address) value k,
  check_none s.monitors kind (strip kind address) value,
)

-- In a well-formed state, a memory or I/O access (with a value only if it is a write) is stopped
-- exactly when a valid slot watches its kind, its address (of an I/O access, the low octet) and its
-- value; the check changes nothing.
pub watchpoint_hits :
    (s : Monitors) (kind : Kind) (address : ℕ) (value : Option ℕ)
    → Inv s
    → is_exec kind ≡ false
    → accepts_value kind value ≡ true
    → (hit : Bool) × (monitor_check s kind address value ≡ ok (s, hit))
      × ((hit ≡ true) ↔ Watched s.monitors kind (strip kind address) value)
watchpoint_hits s kind address value v k a =
    let at = strip kind address in
    (
      (check_from s.monitors kind at value).1,
      found s kind address value v k a,
      (
        check_from_sound s.monitors kind at value k,
        λ (i, m, e, w). check_from_complete s.monitors kind at value i m k e w,
      ),
    )

check_from-new :
    (ms : List Monitor) (new : Monitor) (kind : Kind) (address : ℕ) (value : Option ℕ)
    → is_exec kind ≡ false
    → triggers new kind address value ≡ true
    → valid_count ms < length ms
    → (check_from (fill_free ms new).0 kind address value).1 ≡ true
unfolding check_from fill_free
check_from-new [] new kind address value k t h = absurd (omega arith)
check_from-new (m ∷ ms) new kind address value k t h =
    ground (arith, check_from-new ms new kind address value k t, valid_count-le ms)

added :
    (s t : Monitors) (kind : Kind) (address : ℕ) (bound : Option ℕ) {b : Bool}
    → monitor_add s kind address bound ≡ ok (t, b)
    → t.monitors ≡ (fill_free s.monitors (new_monitor kind address bound)).0
unfolding monitor_add
added s t kind address bound h = ground arith

-- In a well-formed state with a free slot, a memory or I/O watchpoint (with a value only on a
-- write) is added, and an access that it watches (an I/O access by its low octet) is then stopped.
pub added_watchpoint_hits :
    (s : Monitors) (kind : Kind) (address access : ℕ) (bound value : Option ℕ)
    → Inv s
    → is_exec kind ≡ false
    → accepts_value kind bound ≡ true
    → accepts_value kind value ≡ true
    → valid_count s.monitors < 8
    → Watches (new_monitor kind address bound) kind (strip kind access) value
    → (t : Monitors) × (monitor_add s kind address bound ≡ ok (t, true))
      × (monitor_check t kind access value ≡ ok (t, true))
added_watchpoint_hits s kind address access bound value v k a b free w =
    let new = new_monitor kind address bound in
    let (t, e, inv) = add-Inv s kind address bound v a in
    let hit =
      check_from-new s.monitors new kind (strip kind access) value k
        (triggers_complete new kind (strip kind access) value w) (omega (arith, free, v.slots)) in
    (
      t,
      ground (arith, e),
      ground (arith, found t kind access value inv k b, added s t kind address bound e, hit),
    )

-- A watchpoint on an input address above 255 is accepted, and no input access ever hits it.
pub high_octet_never_hits :
    (address port : ℕ)
    → 255 < address
    → (t : Monitors) × (add_in_watchpoint static_monitors address ≡ ok (t, true))
      × (check_in_watchpoint t port ≡ ok (t, false))
unfolding static_monitors add_in_watchpoint check_in_watchpoint monitor_add monitor_check
    accepts_value fill_free check_from triggers strip differs
high_octet_never_hits address port h = (
  record {
    monitors = new_monitor Kind.read_io address none ∷ replicate 7 no_monitor;
    valid_breakpoints = 1;
  },
  refl,
  ground (arith, and_le_mask port 255),
)
