-- ===== src/Floppy.antt =====
-- src/floppy.c, src/floppy.h: disk images in the Ceda File Format, and the drives that hold them.
pub mod Layout
pub mod Contents
pub mod Drives
mod Tests
use ceda_cemu.Base.{
  ℕ, zero, suc, ◌+◌, ◌-◌, ◌*◌, ◌%◌, ◌^◌, Bool, true, false, not, ◌&&◌, ◌||◌, Option, none, some,
  List, [], ◌∷◌, ◌++◌, ◌==◌, ltb, leb, if◌then◌else◌, get_or, set, length, take, drop, replicate,
}
use ceda_cemu.Base.Int.{ℤ}
use ceda_cemu.Base.Outcome.{Fault, Outcome, ok, fault, ◌>>=◌, ◌>>◌, check}
use ceda_cemu.Fdc.State.{Request, Reply, Callback, Fdc}
use ceda_cemu.Fdc.Ports.{fdc_kick_disk_image}

-- An open image file. `seeks` and `closes` say whether `fseek` and `fclose` succeed on it.
pub record File : Type 0 where
  pub bytes : List ℕ
  pub seeks : Bool
  pub closes : Bool

-- `floppy_units`; `none` is a NULL `fd`.
abbrev pub Units : Type 0
Units = List (Option File)

-- ARRAY_SIZE(floppy_units)
abbrev floppy_units_size : ℕ
floppy_units_size = 4

abbrev cff_maximum_tracks : ℕ
cff_maximum_tracks = 80

abbrev cff_sector_size : ℕ
cff_sector_size = 1024

abbrev cff_max_sectors : ℕ
cff_max_sectors = 5

abbrev cff_t0_sector_size : ℕ
cff_t0_sector_size = 256

abbrev cff_t0_max_sectors : ℕ
cff_t0_max_sectors = 16

abbrev ioerror : ℤ
ioerror = ℤ.negsuc 0

-- DISK_IMAGE_NOMEDIUM, DISK_IMAGE_ERR, DISK_IMAGE_INVALID_GEOMETRY
abbrev no_medium : ℤ
no_medium = ℤ.pos 0

abbrev invalid_geometry : ℤ
invalid_geometry = ℤ.negsuc 1

abbrev pub of_bool : Bool → ℕ
of_bool b = if b then 1 else 0

-- `offset` and `len`, in the branch for track 0 of head 0.
abbrev first_track : ℕ → Option (ℕ × ℕ)
first_track sector =
    if ltb (cff_t0_max_sectors - 1) sector
    then none
    else some (sector * cff_t0_sector_size, cff_t0_sector_size)

-- The same in the branch for the other tracks, in `uint32_t` arithmetic.
abbrev other_track : Bool → ℕ → ℕ → Option (ℕ × ℕ)
other_track head track sector =
    let to_track = track * cff_sector_size * cff_max_sectors * 2 % 2 ^ 32 in
    let to_head = (to_track + of_bool head * cff_sector_size * cff_max_sectors) % 2 ^ 32 in
    let to_sector = (to_head + sector * cff_sector_size) % 2 ^ 32 in
    let shorter = (to_sector + 2 ^ 32 - cff_sector_size * cff_max_sectors) % 2 ^ 32 in
    let offset = (shorter + cff_t0_sector_size * cff_t0_max_sectors) % 2 ^ 32 in
    if ltb (cff_max_sectors - 1) sector then none else some (offset, cff_sector_size)

-- Where a sector starts in the image and how long it is; `none` is the return of
-- DISK_IMAGE_INVALID_GEOMETRY for the track or the sector.
unfoldable pub locate : Bool → ℕ → ℕ → Option (ℕ × ℕ)
locate head track sector =
    if ltb (cff_maximum_tracks - 1) track
    then none
    else if (track == 0) && not head
    then first_track sector
    else other_track head track sector

abbrev same_bool : Bool → Bool → Bool
same_bool true b = b
same_bool false b = not b

-- The checks of both functions up to the transfer: an error, or the place of the sector.
abbrev pub place : Request → Option (ℕ × ℕ)
place r =
    if not (same_bool r.phy_head r.head)
    then none
    else if not (r.phy_track == r.track)
    then none
    else locate r.head r.track r.sector

-- `fread`: what there is of the bytes asked for.
abbrev pub fread : ℕ → ℕ → List ℕ → List ℕ
fread offset len bytes = take len (drop offset bytes)

-- `fwrite` of a `List` at an offset; a gap behind the end of the file reads as zeros.
abbrev pub fwrite : ℕ → List ℕ → List ℕ → List ℕ
fwrite zero [] bytes = bytes
fwrite zero (x ∷ xs) [] = x ∷ fwrite zero xs []
fwrite zero (x ∷ xs) (b ∷ bytes) = x ∷ fwrite zero xs bytes
fwrite (suc offset) xs [] = 0 ∷ fwrite offset xs []
fwrite (suc offset) xs (b ∷ bytes) = b ∷ fwrite offset xs bytes

abbrev pub reply : ℤ → List ℕ → Units → Reply Units
reply ret bytes units = record { ret = ret; bytes = bytes; disk = units }

-- The transfer at the end of `floppy_read_buffer`.
unfoldable pub read_at : Option (List ℕ) → File → ℕ → ℕ → Units → Reply Units
read_at none file offset len units = reply (ℤ.pos len) [] units
read_at (some buffer) file offset len units =
    let got = fread offset len file.bytes in
    if not file.seeks then reply ioerror [] units else reply (ℤ.pos (length got)) got units

-- The transfer at the end of `floppy_write_buffer`; `buffer` is what lies behind its pointer.
unfoldable pub write_at : Option (List ℕ) → File → ℕ → ℕ → ℕ → Units → Reply Units
write_at none file unit offset len units = reply (ℤ.pos len) [] units
write_at (some buffer) file unit offset len units =
    let given = take len buffer in
    let written = record file { bytes = fwrite offset given file.bytes } in
    if not file.seeks
    then reply ioerror [] units
    else reply (ℤ.pos (length given)) [] (set units unit (some written))

-- The file of a unit, if there is such a unit and it holds one.
abbrev pub medium : Units → ℕ → Option File
medium units unit = if leb floppy_units_size unit then none else get_or units unit none

unfoldable pub read_placed : Option (List ℕ) → Option File → Option (ℕ × ℕ) → Units → Reply Units
read_placed buffer none at units = reply no_medium [] units
read_placed buffer (some file) none units = reply invalid_geometry [] units
read_placed buffer (some file) (some (offset, len)) units = read_at buffer file offset len units

unfoldable pub write_placed :
    Option (List ℕ) → Option File → ℕ → Option (ℕ × ℕ) → Units → Reply Units
write_placed buffer none unit at units = reply no_medium [] units
write_placed buffer (some file) unit none units = reply invalid_geometry [] units
write_placed buffer (some file) unit (some (offset, len)) units =
    write_at buffer file unit offset len units

unfoldable pub floppy_read_buffer : Callback Units
floppy_read_buffer buffer r units = read_placed buffer (medium units r.unit_number) (place r) units

unfoldable pub floppy_write_buffer : Callback Units
floppy_write_buffer buffer r units =
    write_placed buffer (medium units r.unit_number) r.unit_number (place r) units

-- `floppy_unload_image` of the unit's file.
unfoldable pub unload_file : Fdc Units → Option File → ℕ → Outcome (Fdc Units × ℤ)
unload_file s none unit = ok (s, ioerror)
unload_file s (some file) unit = do
  t ← fdc_kick_disk_image (record s { disk = set s.disk unit none }) none none
  ok (t, if file.closes then ℤ.pos 0 else ioerror)

-- The index is not checked: a unit that is no drive reads past the array.
unfoldable pub floppy_unload_image : Fdc Units → ℕ → Outcome (Fdc Units × ℤ)
floppy_unload_image s unit = do
  check (ltb unit floppy_units_size) Fault.out_of_bounds
  unload_file s (get_or s.disk unit none) unit

unfoldable pub load_file : Fdc Units → Option File → ℕ → Outcome (Fdc Units × ℤ)
load_file s none unit = ok (s, ioerror)
load_file s (some file) unit = do
  let t = record s { disk = set s.disk unit (some file) }
  u ← fdc_kick_disk_image t (some floppy_read_buffer) (some floppy_write_buffer)
  ok (u, ℤ.pos 0)

-- `opened` is what `fopen` of the file name returns.
unfoldable pub floppy_load_image : Fdc Units → Option File → ℕ → Outcome (Fdc Units × ℤ)
floppy_load_image s opened unit = do
  check (ltb unit floppy_units_size) Fault.assertion
  (t, _) ← floppy_unload_image s unit
  load_file t opened unit
