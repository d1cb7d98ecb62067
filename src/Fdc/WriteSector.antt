-- ===== src/Fdc/WriteSector.antt =====
-- A whole sector written by the processor reaches the medium in one call.
use native.Mathlib.Numerals.{add-one}
use ceda_cemu.Base.{
  ℕ, suc, ◌+◌, ◌≤◌, ◌≡◌, ◌≢◌, refl, ap, subst, ◌∙◌, arith, List, [], ◌∷◌, length, length-set, set,
  some,
}
use ceda_cemu.Base.Int.{pos}
use ceda_cemu.Base.Outcome.{ok}
use ceda_cemu.Fdc.State.{FdcStatus, Exec, Operation, Callback, Reply, Fdc}
use ceda_cemu.Fdc.Transfer.{request_of, store_bytes}
use ceda_cemu.Fdc.Stream.{write_bytes, Running, pushed, out_data, out_last_data}

-- Single stores from index `k` on.
abbrev store_at : List ℕ → ℕ → List ℕ → List ℕ
store_at buffer k [] = buffer
store_at buffer k (b ∷ bs) = store_at (set buffer k b) (k + 1) bs

store_at_cons :
    (bs : List ℕ) (x : ℕ) (buffer : List ℕ) (k : ℕ)
    → store_at (x ∷ buffer) (suc k) bs ≡ x ∷ store_at buffer k bs
store_at_cons [] x buffer k = refl
store_at_cons (b ∷ bs) x buffer k =
    rw (add-one (suc k), add-one k) (store_at_cons bs x (set buffer k b) (suc k))

store_at-eq-store_bytes :
    (bs buffer : List ℕ) → length bs ≤ length buffer → store_at buffer 0 bs ≡ store_bytes bs buffer
unfolding store_bytes
store_at-eq-store_bytes [] buffer h = refl
store_at-eq-store_bytes (b ∷ bs) [] h = absurd (omega arith)
store_at-eq-store_bytes (b ∷ bs) (x ∷ buffer) h =
    store_at_cons bs b buffer 0 ∙ ap (λ l. b ∷ l) (store_at-eq-store_bytes bs buffer (omega arith))

module _ {D : Type 0} (op : Operation) (cb : Callback D) where
  -- What the medium answers to the sector in `buffer`.
  abbrev pub answer : Fdc D → List ℕ → Reply D
  answer s buffer = cb (some buffer) (request_of s s.idr) s.disk

  pub record HasWritten (s t : Fdc D) (written : List ℕ) : Type 0 where
    pub status : t.fdc_status ≡ FdcStatus.exec
    pub buffer : t.exec_buffer ≡ written
    pub full : t.rwcount ≡ s.rwcount_max
    pub disk : t.disk ≡ (answer s written).disk

  pushed-Running :
      (s : Fdc D) (b : ℕ) → Running Exec.write_data op s → Running Exec.write_data op (pushed s b)
  pushed-Running s b r = ground (arith, length-set s.exec_buffer s.rwcount b)

  write_from :
      (b : ℕ) (bs : List ℕ) (s : Fdc D)
      → Running Exec.write_data op s
      → s.write_buffer_cb ≡ some cb
      → s.idr.record_no ≢ 0
      → s.rwcount + suc (length bs) ≡ s.rwcount_max
      → (n : ℕ) → (answer s (store_at s.exec_buffer s.rwcount (b ∷ bs))).ret ≡ pos (suc n)
      → (t : Fdc D) × (write_bytes (b ∷ bs) s ≡ ok t)
        × HasWritten s t (store_at s.exec_buffer s.rwcount (b ∷ bs))
  unfolding write_bytes
  write_from b [] s r c z l n e =
      let reply = answer s (set s.exec_buffer s.rwcount b) in
      (
        record (pushed s b) { disk = reply.disk },
        ground (arith, out_last_data s op cb b r c z (omega arith) n e),
        ground (arith, r),
      )
  write_from b (d ∷ bs) s r c z l n e =
      let (t, w, h) = write_from d bs (pushed s b) (pushed-Running s b r) c z (omega arith) n e in
      (t, ground (arith, out_data s op cb b r c), ground arith)

  -- In a write command that TC has not ended, at the start of a sector whose record is not 0, as
  -- many bytes as the sector holds are handed to the write callback in one buffer, in order, for
  -- the sector of the current ID, provided that the callback accepts them; the media are then what
  -- it leaves.
  pub write_sector :
      (b : ℕ) (bs : List ℕ) (s : Fdc D)
      → Running Exec.write_data op s
      → s.write_buffer_cb ≡ some cb
      → s.idr.record_no ≢ 0
      → s.rwcount ≡ 0
      → length (b ∷ bs) ≡ s.rwcount_max
      → (n : ℕ) → (answer s (store_bytes (b ∷ bs) s.exec_buffer)).ret ≡ pos (suc n)
      → (t : Fdc D) × (write_bytes (b ∷ bs) s ≡ ok t)
        × HasWritten s t (store_bytes (b ∷ bs) s.exec_buffer)
  write_sector b bs s r c z k l n e =
      let stored : store_at s.exec_buffer s.rwcount (b ∷ bs) ≡ store_bytes (b ∷ bs) s.exec_buffer =
        ap (λ i. store_at s.exec_buffer i (b ∷ bs)) k
        ∙ store_at-eq-store_bytes (b ∷ bs) s.exec_buffer (omega (arith, r)) in
      subst
        (λ l.
          (answer s l).ret ≡ pos (suc n)
          → (t : Fdc D) × (write_bytes (b ∷ bs) s ≡ ok t) × HasWritten s t l)
        stored (write_from b bs s r c z (omega arith) n) e
