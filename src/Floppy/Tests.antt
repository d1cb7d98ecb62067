-- ===== src/Floppy/Tests.antt =====
-- Sectors of concrete images.
use ceda_cemu.Base.{
  ℕ, ◌*◌, ◌≤◌, ◌≡◌, ◌↔◌, refl, true, false, none, some, List, [], ◌∷◌, length, length-replicate,
  replicate, take, arith, inr,
}
use ceda_cemu.Base.Int.{ℤ}
use ceda_cemu.Fdc.State.{Request}
use ceda_cemu.Floppy.{File, Units, place, locate, floppy_read_buffer, floppy_write_buffer}
use ceda_cemu.Floppy.Layout.{HoldsByte, head_of, track_of, sector_of, sectors_tile}
use ceda_cemu.Floppy.Contents.{Loaded, read_after_write, other_sector_kept}

sectors_tile_example :
    HoldsByte true 3 2 36900
    ↔ ((true ≡ head_of 36900) × (3 ≡ track_of 36900) × (2 ≡ sector_of 36900))
sectors_tile_example = sectors_tile 36900 true 3 2 (omega arith)

abbrev file_of : List ℕ → File
file_of bytes = record { bytes = bytes; seeks = true; closes = true }

abbrev units_of : List ℕ → Units
units_of bytes = none ∷ some (file_of bytes) ∷ none ∷ none ∷ []

abbrev request : ℕ → Request
request sector = record {
  unit_number = 1;
  phy_head = false;
  phy_track = 0;
  head = false;
  track = 0;
  sector = sector;
}

units_of-Loaded : (bytes : List ℕ) → Loaded (units_of bytes) 1 (file_of bytes)
units_of-Loaded bytes = record { drives = refl; drive = omega arith; holds = refl; seeks = refl }

request-place : (sector : ℕ) → sector ≤ 15 → place (request sector) ≡ some (sector * 256, 256)
unfolding locate
request-place sector h = ground arith

-- A sector of an empty image.
read_after_write_example :
    (units' : Units) × (floppy_write_buffer (some (replicate 256 9)) (request 2) (units_of [])
      ≡ record { ret = ℤ.pos 256; bytes = []; disk = units' })
    × (floppy_read_buffer (some []) (request 2) units'
        ≡ record { ret = ℤ.pos 256; bytes = take 256 (replicate 256 9); disk = units' })
read_after_write_example =
    read_after_write (units_of []) (request 2) (file_of []) (replicate 256 9) [] 512 256
      (units_of-Loaded []) (request-place 2 (omega arith))
      (omega (arith, length-replicate {A = ℕ} 256 9))

-- A whole image of zeros.
unfoldable image : List ℕ
image = replicate 818176 0

length-image : length image ≡ 818176
unfolding image
length-image = length-replicate {A = ℕ} 818176 0

other_sector_kept_example :
    (units' : Units) × (file' : File) × ((floppy_write_buffer
        (some (replicate 256 9))
        (request 2)
        (units_of image)).disk
      ≡ units')
    × Loaded units' 1 file'
    × (length file'.bytes ≡ length image)
    × ((floppy_read_buffer (some []) (request 3) units').ret
        ≡ (floppy_read_buffer (some []) (request 3) (units_of image)).ret)
    × ((floppy_read_buffer (some []) (request 3) units').bytes
        ≡ (floppy_read_buffer (some []) (request 3) (units_of image)).bytes)
other_sector_kept_example =
    other_sector_kept (units_of image) (request 2) (request 3) (file_of image) (replicate 256 9) []
      512 256 768 256 (units_of-Loaded image) refl (request-place 2 (omega arith))
      (request-place 3 (omega arith)) (omega (arith, length-replicate {A = ℕ} 256 9))
      (omega (arith, length-image)) (inr (inr (ground arith)))
