-- ===== src/Fdc/Frame.antt =====
-- What the transfer routines leave alone: the phase, the operation, the main status register and
-- the sizes of the buffers.
use ceda_cemu.Base.{ℕ, zero, suc, ◌≡◌, refl, List, [], ◌∷◌, length, arith, Option, none, some}
use ceda_cemu.Base.Int.{ℤ, pos, negsuc}
use ceda_cemu.Base.Outcome.{Holds, Holds-bind, Holds-map, ok}
use ceda_cemu.Fdc.State.{Fdc, Callback, Request}
use ceda_cemu.Fdc.Transfer.{
  set_error, accept_sector, conclude, fetch, prepare_with, fdc_prepare_read, commit_with,
  fdc_commit_write, store_bytes, request_of, reset_transfer,
}

module _ {D : Type 0} where
  pub record Frame (s t : Fdc D) : Type 0 where
    pub status : t.fdc_status ≡ s.fdc_status
    pub currop : t.fdc_currop ≡ s.fdc_currop
    pub msr : t.msr ≡ s.msr
    pub args : length t.args ≡ length s.args
    pub result : length t.result ≡ length s.result
    pub buffer : length t.exec_buffer ≡ length s.exec_buffer
    pub track : length t.track ≡ length s.track

length-store_bytes : (bs buffer : List ℕ) → length (store_bytes bs buffer) ≡ length buffer
unfolding store_bytes
length-store_bytes [] buffer = refl
length-store_bytes (b ∷ bs) [] = refl
length-store_bytes (b ∷ bs) (_ ∷ buffer) = omega (arith, length-store_bytes bs buffer)

module _ {D : Type 0} where
  pub Frame-trans : {s t u : Fdc D} → Frame s t → Frame t u → Frame s u
  Frame-trans f g = ground arith

  conclude-Frame : (s : Fdc D) (ret : ℤ) → Frame s (conclude s ret).0
  unfolding conclude accept_sector set_error
  conclude-Frame s (pos zero) = ground arith
  conclude-Frame s (pos (suc n)) = ground arith
  conclude-Frame s (negsuc n) = ground arith

  fetch-Frame :
      (cb : Callback D) (req : Request) (ret : ℤ) (s : Fdc D)
      → Holds (λ r. Frame s r.1) (fetch cb req ret s)
  unfolding fetch
  fetch-Frame cb req (pos (suc n)) s =
      ground (arith, length-store_bytes (cb (some s.exec_buffer) req s.disk).bytes s.exec_buffer)
  fetch-Frame cb req (pos zero) s = ground arith
  fetch-Frame cb req (negsuc n) s = ground arith

  prepare_with-Frame :
      (cb : Option (Callback D)) (s : Fdc D) → Holds (λ r. Frame s r.0) (prepare_with cb s)
  unfolding prepare_with
  prepare_with-Frame none s = ground arith
  prepare_with-Frame (some cb) s =
      let req = request_of s s.next_idr in
      let r = cb none req s.disk in
      let s' = record s { disk = r.disk } in
      Holds-bind (λ p. Frame s p.1) (λ p. Frame s p.0) (fetch cb req r.ret s')
        (λ (ret, t). ok (conclude t ret))
        (Holds-map (λ p. Frame s' p.1) (λ p. Frame s p.1) (fetch cb req r.ret s')
          (λ p f. ground arith) (fetch-Frame cb req r.ret s'))
        (λ p f. Frame-trans f (conclude-Frame p.1 p.0))

  commit_with-Frame : (cb : Option (Callback D)) (s : Fdc D) → Frame s (commit_with cb s).0
  unfolding commit_with
  commit_with-Frame none s = ground arith
  commit_with-Frame (some cb) s =
      let r = cb none (request_of s s.next_idr) s.disk in
      Frame-trans (ground arith) (conclude-Frame (record s { disk = r.disk }) r.ret)

  pub fdc_prepare_read-Frame : (s : Fdc D) → Holds (λ r. Frame s r.0) (fdc_prepare_read s)
  unfolding fdc_prepare_read
  fdc_prepare_read-Frame s = ground (arith, prepare_with-Frame s.read_buffer_cb (reset_transfer s))

  pub fdc_commit_write-Frame : (s : Fdc D) → Holds (λ r. Frame s r.0) (fdc_commit_write s)
  unfolding fdc_commit_write
  fdc_commit_write-Frame s = ground (arith, commit_with-Frame s.write_buffer_cb (reset_transfer s))
