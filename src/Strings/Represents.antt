-- ===== src/Strings/Represents.antt =====
-- src/ceda_string.c: a string object holds a text, and its operations are those of texts.
use ceda_cemu.Base.{
  ℕ, zero, suc, ◌+◌, ◌-◌, ◌%◌, ◌^◌, ◌≤◌, ◌<◌, ◌≡◌, ◌↔◌, refl, ap, ap₂, sym, ◌∙◌, Bool, true, false,
  Option, some, List, [], ◌∷◌, ◌++◌, length, length-append, set, get_or, ◌==◌, ltb, lt→ltb,
  Bool-cases, inl, inr, if◌then◌else◌, arith,
}
use mathlib.Core.List.{append_assoc}
use ceda_cemu.Base.Outcome.{Fault, Outcome, ok, ◌>>=◌, ◌>>◌, check}
use ceda_cemu.Base.Text.{c_string, str_eq_iff, NoNul}
use ceda_cemu.Strings.{
  CedaString, write, copy_from, append_from, grow, ceda_string_cat, ceda_string_cpy,
  ceda_string_data, ceda_string_len, ceda_string_eq,
}

-- The object `s` holds `text`: it stands in the memory, with a NUL behind it.
pub record Represents (s : CedaString) (text : List ℕ) : Type 0 where
  pub is_valid : s.valid ≡ true
  pub size : length s.memory ≡ s.capacity
  pub bound : s.capacity < 2 ^ 16
  pub count : s.used ≡ length text + 1
  pub no_nul : NoNul text
  pub unused : List ℕ
  pub layout : s.memory ≡ text ++ 0 ∷ unused

-- `malloc` gives memory of the size that is asked for.
abbrev pub Allocates : (ℕ → Option (List ℕ)) → Type 0
Allocates malloc = (n : ℕ) → (memory : List ℕ) × (malloc n ≡ some memory) × (length memory ≡ n)

set_middle :
    (front : List ℕ) (x c : ℕ) (back : List ℕ)
    → set (front ++ x ∷ back) (length front) c ≡ front ++ c ∷ back
set_middle [] x c back = refl
set_middle (y ∷ front) x c back = ap (λ (l : List ℕ). y ∷ l) (set_middle front x c back)

get_middle :
    (front : List ℕ) (x : ℕ) (back : List ℕ) → get_or (front ++ x ∷ back) (length front) 0 ≡ x
get_middle [] x back = refl
get_middle (y ∷ front) x back = get_middle front x back

write_middle :
    (front : List ℕ) (x c i : ℕ) (back : List ℕ)
    → i ≡ length front
    → write (front ++ x ∷ back) i c ≡ ok (front ++ c ∷ back)
write_middle front x c i back e =
    let inside : i < length (front ++ x ∷ back) = omega (arith, length-append front (x ∷ back)) in
    rw (lt→ltb _ _ inside)
      (ap (λ (n : ℕ). ok (set (front ++ x ∷ back) n c)) e ∙ ap ok (set_middle front x c back))

copy_from_lem :
    (middle front gone after back : List ℕ) (i : ℕ)
    → i ≡ length front
    → length gone ≡ length middle
    → copy_from (front ++ (middle ++ after)) (front ++ (gone ++ back)) i (length middle)
      ≡ ok (front ++ (middle ++ back))
unfolding copy_from
copy_from_lem [] front [] after back i e n = refl
copy_from_lem [] front (x ∷ gone) after back i e n = absurd (omega arith)
copy_from_lem (c ∷ middle) front [] after back i e n = absurd (omega arith)
copy_from_lem (c ∷ middle) front (x ∷ gone) after back i e n =
    let longer : length (front ++ c ∷ []) ≡ i + 1 = omega (arith, length-append front (c ∷ [])) in
    let read : get_or (front ++ c ∷ (middle ++ after)) i 0 ≡ c =
      ap (λ (n : ℕ). get_or (front ++ c ∷ (middle ++ after)) n 0) e
      ∙ get_middle front c (middle ++ after) in
    rw (read, write_middle front x c i (gone ++ back) e)
      (ap₂ (λ (o l : List ℕ). copy_from o l (i + 1) (length middle))
          (sym (append_assoc front (c ∷ []) (middle ++ after)))
          (sym (append_assoc front (c ∷ []) (gone ++ back)))
        ∙ copy_from_lem middle (front ++ c ∷ []) gone after back (i + 1) (sym longer) (omega arith)
        ∙ ap ok (append_assoc front (c ∷ []) (middle ++ back)))

append_from_lem :
    (text front gone back : List ℕ) (used : ℕ)
    → used ≡ length front
    → length gone ≡ length text
    → length front + length text < 2 ^ 16
    → append_from (front ++ (gone ++ back)) used text
      ≡ ok (front ++ (text ++ back), used + length text)
unfolding append_from
append_from_lem [] front [] back used e n b =
    let same : used ≡ used + 0 = omega arith in ap (λ (k : ℕ). ok (front ++ back, k)) same
append_from_lem [] front (x ∷ gone) back used e n b = absurd (omega arith)
append_from_lem (c ∷ text) front [] back used e n b = absurd (omega arith)
append_from_lem (c ∷ text) front (x ∷ gone) back used e n b =
    let next : (used + 1) % 2 ^ 16 ≡ used + 1 = omega arith in
    let longer : length (front ++ c ∷ []) ≡ used + 1 =
      omega (arith, length-append front (c ∷ [])) in
    rw (write_middle front x c used (gone ++ back) e, next)
      (ap (λ (l : List ℕ). append_from l (used + 1) text)
          (sym (append_assoc front (c ∷ []) (gone ++ back)))
        ∙ append_from_lem text (front ++ c ∷ []) gone back (used + 1) (sym longer) (omega arith)
            (omega arith)
        ∙ ap₂ (λ (l : List ℕ) (n : ℕ). ok (l, n)) (append_assoc front (c ∷ []) (text ++ back))
            (omega arith))

split_at :
    (k : ℕ) (xs : List ℕ)
    → k < length xs
    → (gone : List ℕ) × (x : ℕ) × (left : List ℕ) × (xs ≡ gone ++ x ∷ left) × (length gone ≡ k)
split_at k [] h = absurd (omega arith)
split_at zero (x ∷ xs) h = ([], x, xs, refl, refl)
split_at (suc k) (y ∷ xs) h =
    let (gone, x, left, e, n) = split_at k xs (omega arith) in
    (y ∷ gone, x, left, ap (λ (l : List ℕ). y ∷ l) e, omega arith)

-- The end of `ceda_string_cat`.
abbrev finish : Bool → ℕ → List ℕ → ℕ → List ℕ → Outcome CedaString
finish valid capacity memory used more = do
  (written, n) ← append_from memory used more
  ended ← write written n 0
  ok (record { valid = valid; capacity = capacity; used = (n + 1) % 2 ^ 16; memory = ended })

finish_lem :
    (valid : Bool) (capacity : ℕ) (text more gone : List ℕ) (x : ℕ) (left : List ℕ) (used : ℕ)
    → used ≡ length text
    → length gone ≡ length more
    → length text + length more + 1 < 2 ^ 16
    → finish valid capacity (text ++ (gone ++ x ∷ left)) used more
      ≡ ok (record {
        valid = valid;
        capacity = capacity;
        used = length text + length more + 1;
        memory = text ++ (more ++ 0 ∷ left);
      })
finish_lem valid capacity text more gone x left used e n b =
    let at : used + length more ≡ length (text ++ more) = omega (arith, length-append text more) in
    let next : (used + length more + 1) % 2 ^ 16 ≡ length text + length more + 1 = omega arith in
    rw (append_from_lem more text gone (x ∷ left) used e n (omega arith)) (
      rw (← append_assoc text more (x ∷ left)) (
        rw (write_middle (text ++ more) x 0 (used + length more) left at, next)
          (ap
            (λ (l : List ℕ). ok (record {
              valid = valid;
              capacity = capacity;
              used = length text + length more + 1;
              memory = l;
            }))
            (append_assoc text more (0 ∷ left)))))

copied_lem :
    (text unused gone : List ℕ) (x : ℕ) (left : List ℕ)
    → length gone ≡ length text
    → copy_from (text ++ 0 ∷ unused) (gone ++ x ∷ left) 0 (length text + 1) ≡ ok (text ++ 0 ∷ left)
copied_lem text unused gone x left n =
    let size : length (text ++ 0 ∷ []) ≡ length text + 1 =
      omega (arith, length-append text (0 ∷ [])) in
    let room : length (gone ++ x ∷ []) ≡ length (text ++ 0 ∷ []) =
      omega (arith, length-append text (0 ∷ []), length-append gone (x ∷ [])) in
    rw (← append_assoc text (0 ∷ []) unused, ← append_assoc gone (x ∷ []) left, ← size)
      (copy_from_lem (text ++ 0 ∷ []) [] (gone ++ x ∷ []) unused left 0 refl room
        ∙ ap ok (append_assoc text (0 ∷ []) left))

NoNul-append : (xs ys : List ℕ) → NoNul xs → NoNul ys → NoNul (xs ++ ys)
NoNul-append [] ys h k = k
NoNul-append (x ∷ xs) ys h k = (h.0, NoNul-append xs ys h.1 k)

-- An object with room for the text takes it.
finish-Represents :
    (s : CedaString) (text more : List ℕ)
    → Represents s text
    → NoNul more
    → length text + length more + 1 ≤ s.capacity
    → (t : CedaString) × (finish s.valid s.capacity s.memory ((s.used + 2 ^ 16 - 1) % 2 ^ 16) more
        ≡ ok t)
      × Represents t (text ++ more)
finish-Represents s text more r n room =
    let size : length s.memory ≡ length text + 1 + length r.unused =
      ap length r.layout ∙ omega (arith, length-append text (0 ∷ r.unused)) in
    let (gone, x, left, e, k) =
      split_at (length more) (0 ∷ r.unused) (omega (arith, size, r.size)) in
    let t : CedaString = record {
      valid = s.valid;
      capacity = s.capacity;
      used = length text + length more + 1;
      memory = text ++ (more ++ 0 ∷ left);
    } in
    let layout : s.memory ≡ text ++ (gone ++ x ∷ left) =
      r.layout ∙ ap (λ (l : List ℕ). text ++ l) e in
    let used : (s.used + 2 ^ 16 - 1) % 2 ^ 16 ≡ length text =
      omega (arith, r.count, r.bound, room) in
    (
      t,
      ap (λ (l : List ℕ). finish s.valid s.capacity l ((s.used + 2 ^ 16 - 1) % 2 ^ 16) more) layout
          ∙ finish_lem s.valid s.capacity text more gone x left _ used k
              (omega (arith, r.bound, room)),
      record {
        is_valid = r.is_valid;
        size = omega (
          arith,
          length-append text (more ++ 0 ∷ left),
          length-append more (0 ∷ left),
          ap length e,
          length-append gone (x ∷ left),
          k,
          size,
          r.size,
        );
        bound = r.bound;
        count = omega (arith, length-append text more);
        no_nul = NoNul-append text more r.no_nul n;
        unused = left;
        layout = sym (append_assoc text more (0 ∷ left));
      },
    )

c_string-layout : (text rest : List ℕ) → NoNul text → c_string (text ++ 0 ∷ rest) ≡ text
c_string-layout [] rest n = refl
c_string-layout (c ∷ text) rest n =
    let inner : (c == 0) ≡ false = ground (arith, n.0) in
    rw inner (ap (λ (l : List ℕ). c ∷ l) (c_string-layout text rest n.1))

-- A NUL written to the first place.
emptied :
    (text unused : List ℕ)
    → (rest : List ℕ) × (write (text ++ 0 ∷ unused) 0 0 ≡ ok (0 ∷ rest))
      × (length (text ++ 0 ∷ unused) ≡ length rest + 1)
emptied [] unused = (unused, rw (lt→ltb 0 (suc (length unused)) (omega arith)) refl, omega arith)
emptied (c ∷ text) unused = (
  text ++ 0 ∷ unused,
  rw (lt→ltb 0 (suc (length (text ++ 0 ∷ unused))) (omega arith)) refl,
  omega arith,
)

module _ (malloc : ℕ → Option (List ℕ)) (gives : Allocates malloc) where
  -- More memory with the old text in it.
  grow-Represents :
      (s : CedaString) (text : List ℕ) (needed : ℕ)
      → Represents s text
      → s.capacity < 0x8000
      → needed < 0x8000
      → (t : CedaString) × (grow malloc s needed ≡ ok t)
        × Represents t text
        × (t.capacity ≡ s.capacity + needed)
  unfolding grow
  grow-Represents s text needed r c n =
      let capacity : (s.capacity + needed) % 2 ^ 16 ≡ s.capacity + needed = omega arith in
      let (memory, given, size) = gives ((s.capacity + needed) % 2 ^ 16) in
      let old : length s.memory ≡ length text + 1 + length r.unused =
        ap length r.layout ∙ omega (arith, length-append text (0 ∷ r.unused)) in
      let (gone, x, left, e, k) =
        split_at (length text) memory (omega (arith, old, r.size, size, capacity)) in
      let copied : copy_from s.memory memory 0 s.used ≡ ok (text ++ 0 ∷ left) =
        (λ i. copy_from (r.layout i) (e i) 0 (r.count i))
        ∙ copied_lem text r.unused gone x left k in
      (
        record s { capacity = (s.capacity + needed) % 2 ^ 16; memory = text ++ 0 ∷ left },
        rw (lt→ltb _ _ c, given, copied) refl,
        record {
          is_valid = r.is_valid;
          size = omega (
            arith,
            length-append text (0 ∷ left),
            ap length e,
            length-append gone (x ∷ left),
            size,
            k,
          );
          bound = omega arith;
          count = r.count;
          no_nul = r.no_nul;
          unused = left;
          layout = refl;
        },
        capacity,
      )

  cat_lem :
      (s t : CedaString) (more : List ℕ)
      → s.valid ≡ true
      → length more < 0x8000
      → (if ltb ((s.capacity + 2 ^ 16 - s.used) % 2 ^ 16) (length more % 2 ^ 16)
          then grow malloc s (length more % 2 ^ 16)
          else ok s)
        ≡ ok t
      → ceda_string_cat malloc s more
        ≡ finish t.valid t.capacity t.memory ((t.used + 2 ^ 16 - 1) % 2 ^ 16) more
  unfolding ceda_string_cat
  cat_lem s t more v m e =
      let short : length more < 0x10000 = omega arith in
      λ i. do
        check (v i) Fault.assertion
        check (lt→ltb _ _ short i) Fault.assertion
        u ← e i
        finish u.valid u.capacity u.memory ((u.used + 2 ^ 16 - 1) % 2 ^ 16) more

  -- Appending to an object that holds a text gives an object that holds both texts, and more memory
  -- where it is needed, if `malloc` gives memory of the size asked for and the capacity and what is
  -- appended are below 32 KiB.
  pub cat-Represents :
      (s : CedaString) (text more : List ℕ)
      → Represents s text
      → NoNul more
      → s.capacity < 0x8000
      → length more < 0x8000
      → (t : CedaString) × (ceda_string_cat malloc s more ≡ ok t) × Represents t (text ++ more)
  cat-Represents s text more r n c m =
      let needed : length more % 2 ^ 16 ≡ length more = omega arith in
      let size : length s.memory ≡ length text + 1 + length r.unused =
        ap length r.layout ∙ omega (arith, length-append text (0 ∷ r.unused)) in
      let remaining : (s.capacity + 2 ^ 16 - s.used) % 2 ^ 16 ≡ s.capacity - s.used =
        omega (arith, size, r.size, r.count) in
      elim (Bool-cases (ltb (s.capacity - s.used) (length more))) [
        | inl less ↦
            let (t, e, q, k) = grow-Represents s text (length more) r c m in
            let (u, f, w) = finish-Represents t text more q n (omega (arith, size, r.size, k)) in
            (u, cat_lem s t more r.is_valid m (rw (needed, remaining, less) e) ∙ f, w)
        | inr enough ↦
            let room : length text + length more + 1 ≤ s.capacity =
              ground (arith, size, r.size, r.count) in
            let (u, f, w) = finish-Represents s text more r n room in
            (u, cat_lem s s more r.is_valid m (rw (needed, remaining, enough) refl) ∙ f, w)
      ]

  -- Copying a text into an object that holds any other replaces it.
  pub cpy-Represents :
      (s : CedaString) (text other : List ℕ)
      → Represents s text
      → NoNul other
      → s.capacity < 0x8000
      → length other < 0x8000
      → (t : CedaString) × (ceda_string_cpy malloc s other ≡ ok t) × Represents t other
  unfolding ceda_string_cpy
  cpy-Represents s text other r n c m =
      let (rest, e, k) = emptied text r.unused in
      let u : CedaString = record s { memory = 0 ∷ rest; used = 1 } in
      let blank : Represents u [] = record {
        is_valid = r.is_valid;
        size = omega (arith, k, ap length r.layout, r.size);
        bound = r.bound;
        count = omega arith;
        no_nul = tt;
        unused = rest;
        layout = refl;
      } in
      let (t, f, w) = cat-Represents u [] other blank n c m in
      (
        t,
        ap
              (λ (l : List ℕ). do
                memory ← write l 0 0
                ceda_string_cat malloc (record s { memory = memory; used = 1 }) other)
              r.layout
            ∙ ap
                (λ (o : Outcome (List ℕ)). do
                  memory ← o
                  ceda_string_cat malloc (record s { memory = memory; used = 1 }) other)
                e
            ∙ f,
        w,
      )

-- The length and the C string of an object that holds a text are those of the text.
pub data-Represents :
    (s : CedaString) (text : List ℕ)
    → Represents s text
    → (ceda_string_data s ≡ ok text) × (ceda_string_len s ≡ length text)
unfolding ceda_string_data ceda_string_len
data-Represents s text r =
    let same : c_string s.memory ≡ text =
      ap c_string r.layout ∙ c_string-layout text r.unused r.no_nul in
    let size : length s.memory ≡ length text + 1 + length r.unused =
      ap length r.layout ∙ omega (arith, length-append text (0 ∷ r.unused)) in
    (
      λ i. do check (r.is_valid i) Fault.assertion; ok (same i),
      omega (arith, r.count, size, r.size, r.bound),
    )

-- Two objects are equal exactly when they hold the same text.
pub eq-Represents :
    (s t : CedaString) (text other : List ℕ)
    → Represents s text
    → Represents t other
    → (ceda_string_eq s t ≡ true) ↔ (text ≡ other)
unfolding ceda_string_eq
eq-Represents s t text other r q =
    let left : c_string s.memory ≡ text =
      ap c_string r.layout ∙ c_string-layout text r.unused r.no_nul in
    let right : c_string t.memory ≡ other =
      ap c_string q.layout ∙ c_string-layout other q.unused q.no_nul in
    rw (left, right) (str_eq_iff text other)
