-- ===== src/Floppy/Drives.antt =====
-- Loading and ejecting images.
use ceda_cemu.Base.{
  ℕ, ◌<◌, ◌≡◌, ◌≢◌, refl, sym, none, some, if◌then◌else◌, get_or, set, get_or-set_ne, arith,
}
use ceda_cemu.Base.Int.{ℤ}
use ceda_cemu.Base.Outcome.{ok}
use ceda_cemu.Fdc.State.{FdcStatus, Fdc}
use ceda_cemu.Fdc.Ports.{executing, kick_read, kick_write, fdc_kick_disk_image}
use ceda_cemu.Floppy.{File, Units, floppy_unload_image, unload_file}

-- In the command phase, unloading the image of one drive takes both callbacks from the controller,
-- though another drive keeps its image.
pub unload_disconnects_all :
    (s : Fdc Units) (unit other : ℕ) (file : File)
    → unit < 4
    → s.fdc_status ≡ FdcStatus.cmd
    → get_or s.disk unit none ≡ some file
    → other ≢ unit
    → (t : Fdc Units) × (ret : ℤ) × (floppy_unload_image s unit ≡ ok (t, ret))
      × (t.read_buffer_cb ≡ none)
      × (t.write_buffer_cb ≡ none)
      × (get_or t.disk other none ≡ get_or s.disk other none)
unfolding floppy_unload_image unload_file fdc_kick_disk_image kick_read kick_write executing
unload_disconnects_all s unit other file lt idle holds ne = (
  record s { disk = set s.disk unit none; read_buffer_cb = none; write_buffer_cb = none },
  if file.closes then ℤ.pos 0 else ℤ.negsuc 0,
  ground arith,
  refl,
  refl,
  get_or-set_ne s.disk none none (λ e. ne (sym e)),
)
