-- ===== src/Conf/Tests.antt =====
-- The settings on a concrete pool.
use ceda_cemu.Base.{
  ℕ, ◌≡◌, refl, true, false, Option, none, some, List, [], ◌∷◌, ◌++◌, length-replicate, replicate,
  arith,
}
use ceda_cemu.Base.Outcome.{ok}
use ceda_cemu.Base.Text.{codes}
use ceda_cemu.Strings.{zero_string, ceda_string_data}
use ceda_cemu.Strings.Represents.{Allocates}
use ceda_cemu.Tokenizer.Numbers.{no_error}
use ceda_cemu.Conf.{
  bios_rom_path, char_rom_path, cge_rom_path, Conf, path_section, conf_tuples, conf_handler,
  conf_get_type, conf_get_string,
}
use ceda_cemu.Conf.Settings.{conf_handler_lem}

-- Memory that is not cleared.
abbrev heap : ℕ → Option (List ℕ)
heap n = some (replicate n 0x55)

heap-Allocates : Allocates heap
heap-Allocates n = (replicate n 0x55, refl, length-replicate n 0x55)

-- The path of the characters is set, to "c.bin".
abbrev some_set : Conf
some_set = record {
  bools = λ f. false;
  paths = λ f. elim f [ bios_rom_path ↦ none | char_rom_path ↦ some 0 | cge_rom_path ↦ none ];
  strings =
      record { valid = true; capacity = 6; used = 6; memory = codes "c.bin" ++ 0 ∷ [] }
      ∷ replicate 31 zero_string;
  errno = no_error;
}

conf_handler_example :
    (t : Conf) × (conf_handler heap conf_tuples some_set path_section
        (codes "bios_rom")
        (codes "b.bin")
      ≡ ok (t, true))
    × (conf_get_string t path_section (codes "bios_rom") ≡ ok (some (codes "b.bin")))
    × (conf_get_string t path_section (codes "char_rom") ≡ ok (some (codes "c.bin")))
unfolding conf_get_string conf_get_type ceda_string_data
conf_handler_example =
    conf_handler_lem heap heap-Allocates some_set bios_rom_path char_rom_path 1 (codes "b.bin")
      (codes "c.bin") refl (refl, _) (omega arith) refl (omega arith) (omega arith) refl refl
