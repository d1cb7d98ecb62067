-- ===== src/Floppy/Contents.antt =====
-- What is written to a sector is read back, and nothing else changes.
use ceda_cemu.Base.{
  ℕ, zero, suc, ◌+◌, ◌≤◌, ◌<◌, ◌≡◌, ◌≢◌, refl, ap, true, none, some, List, [], ◌∷◌, ltb, leb,
  if◌then◌else◌, get_or, set, length, take, drop, length-set, get_or-set_self, arith, Bool-cases,
  inl, inr, ◌⊎◌,
}
use ceda_cemu.Base.Int.{ℤ}
use ceda_cemu.Fdc.State.{Request, Reply}
use ceda_cemu.Floppy.{
  File, Units, place, locate, medium, fread, fwrite, read_at, write_at, read_placed, write_placed,
  floppy_read_buffer, floppy_write_buffer,
}
use ceda_cemu.Floppy.Layout.{image_size, located_within, holder}

length-take_le : (n : ℕ) (xs : List ℕ) → n ≤ length xs → length (take n xs) ≡ n
length-take_le zero xs h = refl
length-take_le (suc n) [] h = absurd (omega arith)
length-take_le (suc n) (x ∷ xs) h = ap suc (length-take_le n xs (omega arith))

fread-fwrite :
    (offset : ℕ) (xs bytes : List ℕ) → fread offset (length xs) (fwrite offset xs bytes) ≡ xs
fread-fwrite zero [] bytes = refl
fread-fwrite zero (x ∷ xs) [] = ap (λ t. x ∷ t) (fread-fwrite zero xs [])
fread-fwrite zero (x ∷ xs) (b ∷ bytes) = ap (λ t. x ∷ t) (fread-fwrite zero xs bytes)
fread-fwrite (suc offset) xs [] = fread-fwrite offset xs []
fread-fwrite (suc offset) xs (b ∷ bytes) = fread-fwrite offset xs bytes

take-fwrite :
    (n offset : ℕ) (xs bytes : List ℕ)
    → n ≤ offset
    → n ≤ length bytes
    → take n (fwrite offset xs bytes) ≡ take n bytes
take-fwrite zero offset xs bytes h l = refl
take-fwrite (suc n) zero xs bytes h l = absurd (omega arith)
take-fwrite (suc n) (suc offset) xs [] h l = absurd (omega arith)
take-fwrite (suc n) (suc offset) xs (b ∷ bytes) h l =
    ap (λ t. b ∷ t) (take-fwrite n offset xs bytes (omega arith) (omega arith))

fread_before :
    (o l offset : ℕ) (xs bytes : List ℕ)
    → o + l ≤ offset
    → o + l ≤ length bytes
    → fread o l (fwrite offset xs bytes) ≡ fread o l bytes
fread_before zero l offset xs bytes h k = take-fwrite l offset xs bytes (omega arith) (omega arith)
fread_before (suc o) l zero xs bytes h k = absurd (omega arith)
fread_before (suc o) l (suc offset) xs [] h k = absurd (omega arith)
fread_before (suc o) l (suc offset) xs (b ∷ bytes) h k =
    fread_before o l offset xs bytes (omega arith) (omega arith)

drop_none : (n : ℕ) → drop {A = ℕ} n [] ≡ []
drop_none zero = refl
drop_none (suc n) = refl

drop-fwrite :
    (o offset : ℕ) (xs bytes : List ℕ)
    → offset + length xs ≤ o
    → drop o (fwrite offset xs bytes) ≡ drop o bytes
drop-fwrite o zero [] bytes h = refl
drop-fwrite zero zero (x ∷ xs) bytes h = absurd (omega arith)
drop-fwrite (suc o) zero (x ∷ xs) [] h =
    ground (arith, drop-fwrite o zero xs [] (omega arith), drop_none o)
drop-fwrite (suc o) zero (x ∷ xs) (b ∷ bytes) h = drop-fwrite o zero xs bytes (omega arith)
drop-fwrite zero (suc offset) xs bytes h = absurd (omega arith)
drop-fwrite (suc o) (suc offset) xs [] h =
    ground (arith, drop-fwrite o offset xs [] (omega arith), drop_none o)
drop-fwrite (suc o) (suc offset) xs (b ∷ bytes) h = drop-fwrite o offset xs bytes (omega arith)

-- A drive of the four, with an image that `fseek` works on.
pub record Loaded (units : Units) (unit : ℕ) (file : File) : Type 0 where
  pub drives : length units ≡ 4
  pub drive : unit < 4
  pub holds : get_or units unit none ≡ some file
  pub seeks : file.seeks ≡ true

abbrev written : File → ℕ → ℕ → List ℕ → File
written file offset len buffer = record file { bytes = fwrite offset (take len buffer) file.bytes }

medium-Loaded :
    (units : Units) (unit : ℕ) (file : File)
    → Loaded units unit file
    → medium units unit ≡ some file
medium-Loaded units unit file v = ground arith

write_result :
    (units : Units) (r : Request) (file : File) (buffer : List ℕ) (offset len : ℕ)
    → Loaded units r.unit_number file
    → place r ≡ some (offset, len)
    → floppy_write_buffer (some buffer) r units ≡ record {
      ret = ℤ.pos (length (take len buffer));
      bytes = [];
      disk = set units r.unit_number (some (written file offset len buffer));
    }
unfolding floppy_write_buffer write_placed write_at
write_result units r file buffer offset len v at =
    ground (arith, medium-Loaded units r.unit_number file v)

read_result :
    (units : Units) (r : Request) (file : File) (buffer : List ℕ) (offset len : ℕ)
    → Loaded units r.unit_number file
    → place r ≡ some (offset, len)
    → floppy_read_buffer (some buffer) r units ≡ record {
      ret = ℤ.pos (length (fread offset len file.bytes));
      bytes = fread offset len file.bytes;
      disk = units;
    }
unfolding floppy_read_buffer read_placed read_at
read_result units r file buffer offset len v at =
    ground (arith, medium-Loaded units r.unit_number file v)

reloaded :
    (units : Units) (unit : ℕ) (file file' : File)
    → Loaded units unit file
    → file'.seeks ≡ true
    → Loaded (set units unit (some file')) unit file'
reloaded units unit file file' v h =
    ground
      (arith, v, length-set units unit (some file'), get_or-set_self units unit (some file') none)

-- On a drive with an image, a sector that exists and is written with enough bytes returns its
-- length (not 0, as the comment in floppy.c has it), and a read of it then returns the same length
-- and those bytes.
pub read_after_write :
    (units : Units) (r : Request) (file : File) (buffer scratch : List ℕ) (offset len : ℕ)
    → Loaded units r.unit_number file
    → place r ≡ some (offset, len)
    → len ≤ length buffer
    → (units' : Units) × (floppy_write_buffer (some buffer) r units
        ≡ record { ret = ℤ.pos len; bytes = []; disk = units' })
      × (floppy_read_buffer (some scratch) r units'
          ≡ record { ret = ℤ.pos len; bytes = take len buffer; disk = units' })
read_after_write units r file buffer scratch offset len v at h =
    let file' = written file offset len buffer in
    let given = take len buffer in
    let units' = set units r.unit_number (some file') in
    let w = reloaded units r.unit_number file file' v v.seeks in
    let n = length-take_le len buffer h in
    (
      units',
      ground (arith, write_result units r file buffer offset len v at, n),
      ground (
        arith,
        read_result units' r file' scratch offset len w at,
        n,
        fread-fwrite offset given file.bytes,
      ),
    )

length-fwrite :
    (offset : ℕ) (xs bytes : List ℕ)
    → offset + length xs ≤ length bytes
    → length (fwrite offset xs bytes) ≡ length bytes
length-fwrite zero [] bytes h = refl
length-fwrite zero (x ∷ xs) [] h = absurd (omega arith)
length-fwrite zero (x ∷ xs) (b ∷ bytes) h = ap suc (length-fwrite zero xs bytes (omega arith))
length-fwrite (suc offset) xs [] h = absurd (omega arith)
length-fwrite (suc offset) xs (b ∷ bytes) h = ap suc (length-fwrite offset xs bytes (omega arith))

-- Two requests for different sectors.
abbrev pub Apart : Request → Request → Type 0
Apart r r' = (r'.head ≢ r.head) ⊎ (r'.track ≢ r.track) ⊎ (r'.sector ≢ r.sector)

place-located :
    (r : Request) {at : ℕ × ℕ} → place r ≡ some at → locate r.head r.track r.sector ≡ some at
place-located r h = ground arith

not_both :
    (r r' : Request) (p offset len offset' len' : ℕ)
    → place r ≡ some (offset, len)
    → place r' ≡ some (offset', len')
    → Apart r r'
    → (offset ≤ p) × (p < offset + len)
    → (offset' ≤ p) × (p < offset' + len')
    → ⊥
not_both r r' p offset len offset' len' at at' apart (a, b) (a', b') =
    let m = holder r.head r.track r.sector p (offset, len, place-located r at, a, b) in
    let m' = holder r'.head r'.track r'.sector p (offset', len', place-located r' at', a', b') in
    ground (arith, m, m', apart)

-- Different sectors lie one behind the other.
disjoint :
    (r r' : Request) (offset len offset' len' : ℕ)
    → place r ≡ some (offset, len)
    → place r' ≡ some (offset', len')
    → Apart r r'
    → (offset + len ≤ offset') ⊎ (offset' + len' ≤ offset)
disjoint r r' offset len offset' len' at at' apart =
    elim (Bool-cases (leb (offset + len) offset')) [
      | inl before ↦ inl (ground arith)
      | inr over ↦ elim (Bool-cases (leb (offset' + len') offset)) [
        | inl after ↦ inr (ground arith)
        | inr over' ↦
            let p = if ltb offset offset' then offset' else offset in
            let some_byte =
              located_within r.head r.track r.sector offset len (place-located r at) in
            let some_byte' =
              located_within r'.head r'.track r'.sector offset' len' (place-located r' at') in
            absurd (
              not_both r r' p offset len offset' len' at at' apart (ground arith, ground arith)
                (ground arith, ground arith))
      ]
    ]

read_elsewhere :
    (offset len offset' len' : ℕ) (given bytes : List ℕ)
    → length given ≡ len
    → offset' + len' ≤ length bytes
    → (offset + len ≤ offset') ⊎ (offset' + len' ≤ offset)
    → fread offset' len' (fwrite offset given bytes) ≡ fread offset' len' bytes
read_elsewhere offset len offset' len' given bytes n fits (inl before) =
    ap (take len') (drop-fwrite offset' offset given bytes (omega (arith, n, before)))
read_elsewhere offset len offset' len' given bytes n fits (inr after) =
    fread_before offset' len' offset given bytes after fits

-- On a drive with a whole image, writing one sector with enough bytes leaves the drive loaded,
-- keeps the size of the image, and a read of any other sector of that drive returns what it
-- returned before.
pub other_sector_kept :
    (units : Units) (r r' : Request) (file : File) (buffer scratch : List ℕ) (offset len : ℕ)
    (offset' len' : ℕ)
    → Loaded units r.unit_number file
    → r'.unit_number ≡ r.unit_number
    → place r ≡ some (offset, len)
    → place r' ≡ some (offset', len')
    → len ≤ length buffer
    → image_size ≤ length file.bytes
    → Apart r r'
    → (units' : Units) × (file' : File) × ((floppy_write_buffer (some buffer) r units).disk
        ≡ units')
      × Loaded units' r.unit_number file'
      × (length file'.bytes ≡ length file.bytes)
      × ((floppy_read_buffer (some scratch) r' units').ret
          ≡ (floppy_read_buffer (some scratch) r' units).ret)
      × ((floppy_read_buffer (some scratch) r' units').bytes
          ≡ (floppy_read_buffer (some scratch) r' units).bytes)
other_sector_kept units r r' file buffer scratch offset len offset' len' v same at at' h big apart =
    let given = take len buffer in
    let file' = written file offset len buffer in
    let units' = set units r.unit_number (some file') in
    let w = reloaded units r.unit_number file file' v v.seeks in
    let n = length-take_le len buffer h in
    let within = located_within r.head r.track r.sector offset len (place-located r at) in
    let within' = located_within r'.head r'.track r'.sector offset' len' (place-located r' at') in
    let elsewhere =
      read_elsewhere offset len offset' len' given file.bytes n (omega (arith, within'.1, big))
        (disjoint r r' offset len offset' len' at at' apart) in
    let there : Loaded units r'.unit_number file = rw same v in
    let there' : Loaded units' r'.unit_number file' = rw same w in
    let before = read_result units r' file scratch offset' len' there at' in
    let after = read_result units' r' file' scratch offset' len' there' at' in
    (
      units',
      file',
      ap (λ (x : Reply Units). x.disk) (write_result units r file buffer offset len v at),
      w,
      length-fwrite offset given file.bytes (omega (arith, n, within.1, big)),
      ground (arith, elsewhere, before, after),
      ground (arith, elsewhere, before, after),
    )
