-- ===== src/Strings/Tests.antt =====
-- Runs of the strings on concrete inputs.
use ceda_cemu.Base.{
  ℕ, ◌≡◌, refl, true, Option, some, List, [], ◌∷◌, ◌++◌, length-replicate, replicate, arith,
}
use ceda_cemu.Base.Outcome.{ok}
use ceda_cemu.Base.Text.{codes}
use ceda_cemu.Strings.{CedaString, ceda_string_cat, grow, copy_from, append_from}
use ceda_cemu.Strings.Represents.{Represents, Allocates, cat-Represents}

-- Memory that is not cleared.
abbrev heap : ℕ → Option (List ℕ)
heap n = some (replicate n 0x55)

heap-Allocates : Allocates heap
heap-Allocates n = (replicate n 0x55, refl, length-replicate n 0x55)

-- The text "ab" in four octets.
abbrev short : CedaString
short = record { valid = true; capacity = 4; used = 3; memory = 97 ∷ 98 ∷ 0 ∷ 85 ∷ [] }

short-Represents : Represents short (codes "ab")
short-Represents = record {
  is_valid = refl;
  size = refl;
  bound = omega arith;
  count = refl;
  no_nul = omega arith;
  unused = 85 ∷ [];
  layout = refl;
}

cat_example :
    (t : CedaString) × (ceda_string_cat heap short (codes "cdef") ≡ ok t)
    × Represents t (codes "ab" ++ codes "cdef")
cat_example =
    cat-Represents heap heap-Allocates short (codes "ab") (codes "cdef") short-Represents
      (omega arith) (omega arith) (omega arith)

grown :
    ceda_string_cat heap short (codes "cd")
    ≡ ok (record { valid = true; capacity = 6; used = 5; memory = codes "abcd" ++ 0 ∷ 85 ∷ [] })
unfolding ceda_string_cat grow copy_from append_from
grown = refl
