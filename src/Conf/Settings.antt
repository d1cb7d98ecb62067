-- ===== src/Conf/Settings.antt =====
-- src/conf.c: a setting is read back.
use ceda_cemu.Base.{
  ℕ, ◌+◌, ◌%◌, ◌^◌, ◌<◌, ◌≡◌, ◌≢◌, refl, ap, sym, ◌∙◌, Bool, true, false, Option, none, some, List,
  [], length, get_or, get_or-set_self, get_or-set_ne, set, length-set, if◌then◌else◌, arith,
}
use native.Mathlib.Decide.{ℕ_discrete}
use ceda_cemu.Base.Outcome.{Fault, Outcome, ok, fault, ◌>>=◌}
use ceda_cemu.Base.Text.{codes, NoNul}
use ceda_cemu.Strings.{CedaString, zero_string, ceda_string_data}
use ceda_cemu.Strings.Represents.{Represents, Allocates, cpy-Represents, data-Represents}
use ceda_cemu.Strings.Pool.{AllValid, new-Represents}
use ceda_cemu.Conf.{
  StringField, bios_rom_path, char_rom_path, cge_rom_path, conf_str, Conf, same_path, set_path,
  path_section, conf_tuples, set_value, conf_handler, conf_get_type, conf_get_string, data_of,
}

-- The key of a path.
abbrev pub key_of : StringField → List ℕ
key_of bios_rom_path = codes "bios_rom"
key_of char_rom_path = codes "char_rom"
key_of cge_rom_path = codes "cge_rom"

get_path :
    (s : Conf) (f : StringField)
    → conf_get_string s path_section (key_of f) ≡ data_of s.strings (s.paths f)
unfolding conf_get_string conf_get_type
get_path s bios_rom_path = refl
get_path s char_rom_path = refl
get_path s cge_rom_path = refl

same_path_refl : (f : StringField) → same_path f f ≡ true
same_path_refl bios_rom_path = refl
same_path_refl char_rom_path = refl
same_path_refl cge_rom_path = refl

-- A string in another slot stays; the slot that was free held none.
data_kept :
    (old new : List CedaString) (i : ℕ) (at : Option ℕ) (text : List ℕ)
    → (get_or old i zero_string).valid ≡ false
    → ((j : ℕ) → i ≢ j → get_or new j zero_string ≡ get_or old j zero_string)
    → data_of old at ≡ ok (some text)
    → data_of new at ≡ ok (some text)
unfolding ceda_string_data
data_kept old new i none text free others e = absurd (cc)
data_kept old new i (some j) text free others e = elim (ℕ_discrete i j) [
  | yes same ↦
      let gone : data_of old (some i) ≡ fault Fault.assertion = rw free refl in
      let here : data_of old (some i) ≡ ok (some text) =
        ap (λ (n : ℕ). data_of old (some n)) same ∙ e in
      absurd (cc)
  | no apart ↦ ap (λ (u : CedaString). do d ← ceda_string_data u; ok (some d)) (others j apart) ∙ e
]

module _ (malloc : ℕ → Option (List ℕ)) (gives : Allocates malloc) where
  handled :
      (s t : Conf) (f : StringField) (value : List ℕ)
      → set_value malloc s (conf_str f) value ≡ ok (t, true)
      → conf_handler malloc conf_tuples s path_section (key_of f) value ≡ ok (t, true)
  unfolding conf_handler
  handled s t bios_rom_path value e = rw e refl
  handled s t char_rom_path value e = rw e refl
  handled s t cge_rom_path value e = rw e refl

  -- The string behind the setting, in slot `i`.
  stored :
      (s : Conf) (f : StringField) (i : ℕ) (value : List ℕ)
      → s.paths f ≡ none
      → AllValid s.strings i
      → i < length s.strings
      → (get_or s.strings i zero_string).valid ≡ false
      → NoNul value
      → length value < 0x7fff
      → (strings : List CedaString) × (set_value malloc s (conf_str f) value
          ≡ ok (set_path s f i strings, true))
        × Represents (get_or strings i zero_string) value
        × ((j : ℕ) → i ≢ j → get_or strings j zero_string ≡ get_or s.strings j zero_string)
  unfolding set_value
  stored s f i value first used h free text short =
      let capacity = (length value + 1) % 2 ^ 16 in
      let (t, taken, empty, size) =
        new-Represents malloc gives s.strings i capacity used h free (omega arith) (omega arith) in
      let (u, copied, r) =
        cpy-Represents malloc gives t [] value empty text (omega (arith, size)) (omega arith) in
      let here : get_or (set s.strings i t) i zero_string ≡ t =
        get_or-set_self s.strings i t zero_string h in
      let strings = set (set s.strings i t) i u in
      let there : get_or strings i zero_string ≡ u =
        get_or-set_self (set s.strings i t) i u zero_string
          (omega (arith, length-set s.strings i t, h)) in
      (
        strings,
        rw (first, taken, here, copied) refl,
        rw there r,
        λ j other.
            get_or-set_ne (set s.strings i t) u zero_string other
            ∙ get_or-set_ne s.strings t zero_string other,
      )

  -- If `malloc` gives memory of the size asked for and the pool has a free slot, a path option that
  -- has no string yet and is set to a text of less than 32 KiB less one is read back as that text,
  -- and another path option that is set keeps its own.
  pub conf_handler_lem :
      (s : Conf) (f g : StringField) (i : ℕ) (value text : List ℕ)
      → s.paths f ≡ none
      → AllValid s.strings i
      → i < length s.strings
      → (get_or s.strings i zero_string).valid ≡ false
      → NoNul value
      → length value < 0x7fff
      → same_path f g ≡ false
      → conf_get_string s path_section (key_of g) ≡ ok (some text)
      → (t : Conf) × (conf_handler malloc conf_tuples s path_section (key_of f) value
          ≡ ok (t, true))
        × (conf_get_string t path_section (key_of f) ≡ ok (some value))
        × (conf_get_string t path_section (key_of g) ≡ ok (some text))
  conf_handler_lem s f g i value text first used h free plain short apart before =
      let (strings, e, r, others) = stored s f i value first used h free plain short in
      let t = set_path s f i strings in
      let mine : t.paths f ≡ some i = rw (same_path_refl f) refl in
      (
        t,
        handled s t f value e,
        get_path t f
            ∙ ap (data_of strings) mine
            ∙ ap (λ (o : Outcome (List ℕ)). do d ← o; ok (some d))
                (data-Represents (get_or strings i zero_string) value r).0,
        get_path t g
            ∙ ap (λ (b : Bool). data_of strings (if b then some i else s.paths g)) apart
            ∙ data_kept s.strings strings i (s.paths g) text free others
                (sym (get_path s g) ∙ before),
      )
