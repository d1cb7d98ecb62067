-- ===== src/Crtc/Registers.antt =====
-- The registers keep to their widths, and what the guest programs is what the video reads.
use ceda_cemu.Base.{
  ◌||◌, replicate, sym, ℕ, zero, suc, ◌+◌, ◌*◌, ◌%◌, ◌≤◌, ◌<◌, ◌≡◌, ◌≢◌, refl, bit_and, List, [],
  ◌∷◌, ◌==◌, get_or, set, length, length-set, get_or-set_self, get_or-set_ne, arith, Bool-cases,
  inl, inr,
}
use ceda_cemu.Base.Bits.{and_le_mask, all_below, all_below_sound}
use ceda_cemu.Base.Outcome.{Outcome, Holds, Holds-bind, ok, ◌>>=◌}
use ceda_cemu.Crtc.{
  Crtc, mask_value, write_selected, crtc_out, reg, crtc_cursor_position, crtc_restart,
}

-- The largest value of each register.
unfoldable pub capacity : ℕ → ℕ
capacity r =
    get_or
      (255 ∷ 255 ∷ 255 ∷ 15 ∷ 127 ∷ 31 ∷ 127 ∷ 127 ∷ 3 ∷ 31 ∷ 127 ∷ 31 ∷ 63 ∷ 255 ∷ 63 ∷ 255 ∷ 0 ∷ 0
        ∷ [])
      r 0

pub record Inv (s : Crtc) : Type 0 where
  pub count : length s.regs ≡ 18
  pub selected : s.rselect < 18
  pub fits : (r : ℕ) → r < 18 → reg s r ≤ capacity r

mask-capacity : (r value : ℕ) → r < 16 → value < 256 → mask_value r value ≤ capacity r
unfolding mask_value capacity
mask-capacity r value h v = ground (
  arith,
  and_le_mask value 15,
  and_le_mask value 127,
  and_le_mask value 31,
  and_le_mask value 3,
  and_le_mask value 63,
)

fits-set :
    (s : Crtc) (value r : ℕ)
    → Inv s
    → value ≤ capacity s.rselect
    → r < 18
    → get_or (set s.regs s.rselect value) r 0 ≤ capacity r
fits-set s value r v h lt = elim (Bool-cases (s.rselect == r)) [
  | inl e ↦
      let same : s.rselect ≡ r = ground arith in
      ground (arith, get_or-set_self s.regs s.rselect value 0, v.count, v.selected, same)
  | inr n ↦
      let other : s.rselect ≢ r = ground arith in
      omega (arith, get_or-set_ne s.regs value 0 other, v.fits r lt)
]

write-Inv : (s : Crtc) (value : ℕ) → Inv s → value < 256 → Inv (write_selected s value)
unfolding write_selected
write-Inv s value v h = elim (Bool-cases ((s.rselect == 16) || (s.rselect == 17))) [
  | inl e ↦ ground (arith, v)
  | inr n ↦
      let masked = mask_value s.rselect value in
      let small = mask-capacity s.rselect value (ground arith) h in
      let t : Crtc = record s { regs = set s.regs s.rselect masked } in
      let w : Inv t = record {
        count = omega (arith, length-set s.regs s.rselect masked, v.count);
        selected = v.selected;
        fits = λ r lt. fits-set s masked r v small lt;
      } in
      ground (arith, w)
]

out-Inv :
    (s : Crtc) (address value : ℕ) → Inv s → value < 256 → Holds Inv (crtc_out s address value)
unfolding crtc_out
out-Inv s address value v h = ground (arith, write-Inv s value v h)

get_or-zeros : (n r : ℕ) → get_or {A = ℕ} (replicate n 0) r 0 ≡ 0
get_or-zeros zero r = refl
get_or-zeros (suc n) zero = refl
get_or-zeros (suc n) (suc r) = get_or-zeros n r

pub restart-Inv : Inv crtc_restart
unfolding crtc_restart
restart-Inv = record {
  count = refl;
  selected = ground arith;
  fits = λ r lt. omega (arith, get_or-zeros 18 r);
}

-- Output instructions: register addresses and the octets written.
unfoldable pub outs : Crtc → List (ℕ × ℕ) → Outcome Crtc
outs s [] = ok s
outs s ((address, value) ∷ rest) = do t ← crtc_out s address (value % 256); outs t rest

outs_from : (accesses : List (ℕ × ℕ)) (s : Crtc) → Inv s → Holds Inv (outs s accesses)
unfolding outs
outs_from [] s v = v
outs_from ((address, value) ∷ rest) s v =
    Holds-bind Inv Inv (crtc_out s address (value % 256)) _
      (out-Inv s address (value % 256) v (omega arith)) (λ t w. outs_from rest t w)

-- Whatever octets the guest writes to the ports after a restart, unless it ends the program, the
-- selected register exists, every register stays within its width, and the light pen's registers
-- stay 0.
pub outs-Inv : (accesses : List (ℕ × ℕ)) → Holds Inv (outs crtc_restart accesses)
outs-Inv accesses = outs_from accesses crtc_restart restart-Inv

and63 : (x : ℕ) → x < 256 → bit_and x 63 ≡ x % 64
unfolding all_below
and63 x h = ground (arith, all_below_sound 256 (λ x. bit_and x 63 == x % 64) x (refl) h)

-- The writes by which a guest places the cursor: its high and its low octet.
abbrev pub place_cursor : ℕ → ℕ → List (ℕ × ℕ)
place_cursor high low = (0, 14) ∷ (1, high) ∷ (0, 15) ∷ (1, low) ∷ []

-- In a well-formed state, writing a high and a low octet to the cursor registers places the cursor
-- at the 14-bit position that they make; no other register changes.
pub cursor_round_trip :
    (s : Crtc) (high low r : ℕ)
    → Inv s
    → high < 256
    → low < 256
    → r ≢ 14
    → r ≢ 15
    → (t : Crtc) × (outs s (place_cursor high low) ≡ ok t)
      × (crtc_cursor_position t ≡ (high % 64) * 256 + low)
      × (reg t r ≡ reg s r)
unfolding outs crtc_out write_selected mask_value crtc_cursor_position
cursor_round_trip s high low r v h l a b =
    let high_part = bit_and high 63 in
    let after = set s.regs 14 high_part in
    (
      record { regs = set after 15 low; rselect = 15 },
      ground arith,
      ground (
        arith,
        and63 high h,
        v.count,
        length-set s.regs 14 high_part,
        get_or-set_self s.regs 14 high_part 0,
        get_or-set_self after 15 low 0,
        get_or-set_ne after {i = 15} {j = 14} low 0 (ground arith),
      ),
      omega (
        arith,
        get_or-set_ne after low 0 (λ e. b (sym e)),
        get_or-set_ne s.regs high_part 0 (λ e. a (sym e)),
      ),
    )
