-- ===== src/Ubus/Routing.antt =====
-- Which peripheral answers.
use ceda_cemu.Base.{
  ℕ, zero, suc, ◌-◌, ◌≤◌, ◌<◌, ◌≡◌, inl, inr, refl, true, false, Option, none, some, List, [], ◌∷◌,
  ◌++◌, length, get_elem?, arith,
}
use ceda_cemu.Ubus.{
  Slot, IoRead, IoWrite, decodes, ubus_register, input_or, ubus_io_in, output_or, ubus_io_out,
}
use ceda_cemu.Ubus.Slots.{Inv, Apart, ApartFrom, Pairwise, register-Inv, register-cases}

-- The arguments of a registration.
pub record Registration (W : Type 0) : Type 0 where
  pub base : ℕ
  pub top : ℕ
  pub read : Option (IoRead W)
  pub write : Option (IoWrite W)

module _ {W : Type 0} where
  unfoldable pub register_all : List (Slot W) → List (Registration W) → List (Slot W)
  register_all ss [] = ss
  register_all ss (r ∷ rs) = register_all (ubus_register ss r.base r.top r.read r.write).0 rs

  get_elem?-append :
      (ss ts : List (Slot W)) (i : ℕ) (s : Slot W)
      → get_elem? ss i ≡ some s
      → get_elem? (ss ++ ts) i ≡ some s
  get_elem?-append [] ts i s h = absurd (ground arith)
  get_elem?-append (x ∷ ss) ts zero s h = h
  get_elem?-append (x ∷ ss) ts (suc i) s h = get_elem?-append ss ts i s h

  get_elem?_last : (ss : List (Slot W)) (s : Slot W) → get_elem? (ss ++ s ∷ []) (length ss) ≡ some s
  get_elem?_last [] s = refl
  get_elem?_last (x ∷ ss) s = get_elem?_last ss s

  register_keeps :
      (ss : List (Slot W)) (r : Registration W) (i : ℕ) (s : Slot W)
      → get_elem? ss i ≡ some s
      → get_elem? (ubus_register ss r.base r.top r.read r.write).0 i ≡ some s
  register_keeps ss r i s h = elim (register-cases ss r.base r.top r.read r.write) [
    | inl e ↦ rw e h
    | inr e ↦ rw e (get_elem?-append ss _ i s h)
  ]

  register_all-Inv :
      (rs : List (Registration W)) (ss : List (Slot W)) → Inv ss → Inv (register_all ss rs)
  unfolding register_all
  register_all-Inv [] ss v = v
  register_all-Inv (r ∷ rs) ss v =
      register_all-Inv rs _ (register-Inv ss r.base r.top r.read r.write v)

  register_all_keeps :
      (rs : List (Registration W)) (ss : List (Slot W)) (i : ℕ) (s : Slot W)
      → get_elem? ss i ≡ some s
      → get_elem? (register_all ss rs) i ≡ some s
  unfolding register_all
  register_all_keeps [] ss i s h = h
  register_all_keeps (r ∷ rs) ss i s h = register_all_keeps rs _ i s (register_keeps ss r i s h)

  ApartFrom-elem :
      (s t : Slot W) (ss : List (Slot W)) (i : ℕ)
      → ApartFrom s ss
      → get_elem? ss i ≡ some t
      → Apart s t
  ApartFrom-elem s t [] i h e = absurd (ground arith)
  ApartFrom-elem s t (u ∷ ss) zero h e = ground (arith, h.0)
  ApartFrom-elem s t (u ∷ ss) (suc i) h e = ApartFrom-elem s t ss i h.1 e

  not_decoded : (s t : Slot W) (a : ℕ) → Apart s t → t.base ≤ a → a < t.top → decodes s a ≡ false
  not_decoded s t a h b c = ground arith

  input_missed :
      (s : Slot W) (f : Option (IoRead W)) (a : ℕ) (w : W) (rest : W × ℕ)
      → input_or false s f a w rest ≡ rest
  unfolding input_or
  input_missed s none a w rest = refl
  input_missed s (some f) a w rest = refl

  output_missed :
      (s : Slot W) (f : Option (IoWrite W)) (a value : ℕ) (w rest : W)
      → output_or false s f a value w rest ≡ rest
  unfolding output_or
  output_missed s none a value w rest = refl
  output_missed s (some f) a value w rest = refl

  input_taken :
      (s : Slot W) (f : IoRead W) (a : ℕ) (w : W) (rest : W × ℕ)
      → s.input ≡ some f
      → s.base ≤ a
      → a < s.top
      → input_or (decodes s a) s s.input a w rest ≡ f (a - s.base) w
  unfolding input_or
  input_taken s f a w rest h b c = let hit : decodes s a ≡ true = ground arith in rw (h, hit) refl

  output_taken :
      (s : Slot W) (f : IoWrite W) (a value : ℕ) (w rest : W)
      → s.output ≡ some f
      → s.base ≤ a
      → a < s.top
      → output_or (decodes s a) s s.output a value w rest ≡ f (a - s.base) value w
  unfolding output_or
  output_taken s f a value w rest h b c =
      let hit : decodes s a ≡ true = ground arith in rw (h, hit) refl

  input_routed :
      (ss : List (Slot W)) (i : ℕ) (s : Slot W) (f : IoRead W) (a : ℕ) (w : W)
      → Pairwise ss
      → get_elem? ss i ≡ some s
      → s.input ≡ some f
      → s.base ≤ a
      → a < s.top
      → ubus_io_in ss a w ≡ f (a - s.base) w
  unfolding ubus_io_in
  input_routed [] i s f a w p e h b c = absurd (ground arith)
  input_routed (t ∷ ss) zero s f a w p e h b c =
      let same : t ≡ s = ground arith in rw same (input_taken s f a w (ubus_io_in ss a w) h b c)
  input_routed (t ∷ ss) (suc i) s f a w p e h b c =
      rw
        (
          not_decoded t s a (ApartFrom-elem t s ss i p.0 e) b c,
          input_missed t t.input a w (ubus_io_in ss a w),
        )
        (input_routed ss i s f a w p.1 e h b c)

  output_routed :
      (ss : List (Slot W)) (i : ℕ) (s : Slot W) (f : IoWrite W) (a value : ℕ) (w : W)
      → Pairwise ss
      → get_elem? ss i ≡ some s
      → s.output ≡ some f
      → s.base ≤ a
      → a < s.top
      → ubus_io_out ss a value w ≡ f (a - s.base) value w
  unfolding ubus_io_out
  output_routed [] i s f a value w p e h b c = absurd (ground arith)
  output_routed (t ∷ ss) zero s f a value w p e h b c =
      let same : t ≡ s = ground arith in
      rw same (output_taken s f a value w (ubus_io_out ss a value w) h b c)
  output_routed (t ∷ ss) (suc i) s f a value w p e h b c =
      rw
        (
          not_decoded t s a (ApartFrom-elem t s ss i p.0 e) b c,
          output_missed t t.output a value w (ubus_io_out ss a value w),
        )
        (output_routed ss i s f a value w p.1 e h b c)

  -- The slot of a registration that was accepted.
  registered :
      (ss : List (Slot W)) (r : Registration W) (later : List (Registration W))
      → (ubus_register ss r.base r.top r.read r.write).1 ≡ true
      → get_elem? (register_all (ubus_register ss r.base r.top r.read r.write).0 later) (length ss)
        ≡ some (record { base = r.base; top = r.top; input = r.read; output = r.write })
  registered ss r later h =
      let s : Slot W = record { base = r.base; top = r.top; input = r.read; output = r.write } in
      register_all_keeps later _ (length ss) s
        (elim (register-cases ss r.base r.top r.read r.write) [
          | inl e ↦ absurd (ground (arith, e, h))
          | inr e ↦ rw e (get_elem?_last ss s)
        ])

  -- On well-formed slots, a peripheral with both callbacks whose registration is accepted answers
  -- every read and every write within its addresses, with the address counted from its base,
  -- whatever is registered later.
  pub registered_answers :
      (ss : List (Slot W)) (r : Registration W) (later : List (Registration W))
      → (f : IoRead W) (g : IoWrite W) (a value : ℕ) (w : W) → Inv ss
      → r.read ≡ some f
      → r.write ≡ some g
      → (ubus_register ss r.base r.top r.read r.write).1 ≡ true
      → r.base ≤ a
      → a < r.top
      → let slots = register_all (ubus_register ss r.base r.top r.read r.write).0 later in
        (ubus_io_in slots a w ≡ f (a - r.base) w)
        × (ubus_io_out slots a value w ≡ g (a - r.base) value w)
  registered_answers ss r later f g a value w v hr hw h b c =
      let s : Slot W = record { base = r.base; top = r.top; input = r.read; output = r.write } in
      let after = register_all-Inv later _ (register-Inv ss r.base r.top r.read r.write v) in
      (
        input_routed _ (length ss) s f a w after.apart (registered ss r later h) hr b c,
        output_routed _ (length ss) s g a value w after.apart (registered ss r later h) hw b c,
      )

  -- After any registrations from the start there are at most four slots, within the 256 addresses,
  -- and no address belongs to two of them.
  pub registrations-Inv : (rs : List (Registration W)) → Inv (register_all [] rs)
  registrations-Inv rs =
      register_all-Inv rs [] (record { few = omega arith; ranges = tt; apart = tt })
