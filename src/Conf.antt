-- ===== src/Conf.antt =====
-- src/conf.c, src/conf.h: the options of the emulator, and the settings that the INI parser finds.
pub mod Settings
mod Tests
use ceda_cemu.Base.{
  ℕ, ◌+◌, ◌-◌, ◌%◌, ◌^◌, Bool, true, false, not, ◌&&◌, Option, none, some, List, [], ◌∷◌, ◌++◌,
  ◌==◌, if◌then◌else◌, length, get_or, set, take,
}
use ceda_cemu.Base.Outcome.{Fault, Outcome, ok, ◌>>=◌, ◌>>◌, check}
use ceda_cemu.Base.Text.{codes, str_eq, c_string}
use ceda_cemu.Strings.{
  CedaString, zero_string, ceda_string_new, ceda_string_cpy, ceda_string_data, ceda_string_delete,
}
use ceda_cemu.Tokenizer.{Parsed, tokenizer_next_word, tokenizer_next_int}
use ceda_cemu.Tokenizer.Numbers.{Errno}

-- CONF_WORD_SIZE
abbrev conf_word_size : ℕ
conf_word_size = 8

-- CONF_PATH_SIZE
abbrev conf_path_size : ℕ
conf_path_size = 512

-- The fields of `conf`.
pub data BoolField : Type 0 where
  cge_installed charmon_installed : BoolField

pub data StringField : Type 0 where
  bios_rom_path char_rom_path cge_rom_path : StringField

-- `type` and `value` of a `conf_tuple_t`: what the pointer points to has that type. No entry of the
-- table has the type CONF_U32.
pub data Value : Type 0 where
  conf_bool : BoolField → Value
  conf_str : StringField → Value

-- `conf_tuple_t`
pub record ConfTuple : Type 0 where
  pub section : List ℕ
  pub key : List ℕ
  pub value : Value

abbrev pub tuple : List ℕ → List ℕ → Value → ConfTuple
tuple section key value = record { section = section; key = key; value = value }

abbrev pub mod_section : List ℕ
mod_section = codes "mod"

abbrev pub path_section : List ℕ
path_section = codes "path"

abbrev pub conf_tuples : List ConfTuple
conf_tuples =
    tuple mod_section (codes "cge_installed") (conf_bool cge_installed)
    ∷ tuple mod_section (codes "charmon_installed") (conf_bool charmon_installed)
    ∷ tuple path_section (codes "bios_rom") (conf_str bios_rom_path)
    ∷ tuple path_section (codes "char_rom") (conf_str char_rom_path)
    ∷ tuple path_section (codes "cge_rom") (conf_str cge_rom_path)
    ∷ []

-- `conf` by its fields, with the pool of strings, in which a string is an index, and `errno`.
pub record Conf : Type 0 where
  pub bools : BoolField → Bool
  pub paths : StringField → Option ℕ
  pub strings : List CedaString
  pub errno : Errno

abbrev same_option : BoolField → BoolField → Bool
same_option cge_installed cge_installed = true
same_option charmon_installed charmon_installed = true
same_option f g = false

abbrev pub same_path : StringField → StringField → Bool
same_path bios_rom_path bios_rom_path = true
same_path char_rom_path char_rom_path = true
same_path cge_rom_path cge_rom_path = true
same_path f g = false

abbrev pub set_bool : Conf → BoolField → Bool → Conf
set_bool s f b = record s { bools = λ g. if same_option f g then b else s.bools g }

abbrev pub set_path : Conf → StringField → ℕ → List CedaString → Conf
set_path s f i strings = record s {
  paths = λ g. if same_path f g then some i else s.paths g;
  strings = strings;
}

-- `if (*ptr != NULL) ceda_string_delete(*ptr);`
abbrev pub delete_old : List CedaString → Option ℕ → Outcome (List CedaString)
delete_old strings none = ok strings
delete_old strings (some i) = do
  t ← ceda_string_delete (get_or strings i zero_string)
  ok (set strings i t)

-- The word of a CONF_BOOL; `true` stands for `return 1`.
abbrev bool_word : Conf → BoolField → Option (List ℕ × List ℕ) → Conf × Bool
bool_word s f none = (s, false)
bool_word s f (some (word, rest)) =
    if str_eq (c_string word) (codes "true")
    then (set_bool s f true, true)
    else if str_eq (c_string word) (codes "false")
    then (set_bool s f false, true)
    else (s, false)

-- Behind `tokenizer_next_int`, with the number that it read, if there is one.
abbrev bool_number : Conf → BoolField → List ℕ → Option ℕ → Outcome (Conf × Bool)
bool_number s f value (some n) = ok (set_bool s f (not (n == 0)), true)
bool_number s f value none = do
  word ← tokenizer_next_word (some value) conf_word_size
  ok (bool_word s f word)

abbrev number_of : Parsed → Option (List ℕ) → Option ℕ
number_of n none = none
number_of n (some rest) = some n.dst

-- `malloc` of the C library.
module _ (malloc : ℕ → Option (List ℕ)) where
  -- The `switch` of `conf_handler`; `false` is `break`.
  unfoldable pub set_value : Conf → Value → List ℕ → Outcome (Conf × Bool)
  set_value s (conf_bool f) value = do
    n ← tokenizer_next_int s.errno 0 (some value)
    bool_number (record s { errno = n.errno }) f value (number_of n n.rest)
  set_value s (conf_str f) value = do
    strings ← delete_old s.strings (s.paths f)
    (taken, i) ← ceda_string_new malloc strings ((length value + 1) % 2 ^ 16)
    t ← ceda_string_cpy malloc (get_or taken i zero_string) value
    ok (set_path s f i (set taken i t), true)

  -- `conf_handler` over a table.
  unfoldable pub conf_handler :
      List ConfTuple → Conf → List ℕ → List ℕ → List ℕ → Outcome (Conf × Bool)
  conf_handler [] s section key value = ok (s, false)
  conf_handler (t ∷ ts) s section key value = elim (str_eq t.section section && str_eq t.key key) [
    | false ↦ conf_handler ts s section key value
    | true ↦ do
      (u, done) ← set_value s t.value value
      (elim done [ true ↦ ok (u, true) | false ↦ conf_handler ts u section key value ])
  ]

  -- The parser calls the handler for every setting, and goes on if it fails.
  unfoldable pub apply_settings : Conf → List (List ℕ × List ℕ × List ℕ) → Outcome Conf
  apply_settings s [] = ok s
  apply_settings s ((section, key, value) ∷ rest) = do
    (t, done) ← conf_handler conf_tuples s section key value
    apply_settings t rest

  -- `ini_parse` gives the settings of a file, or none if it cannot be read; `home` is `HOME`.
  module _ (ini_parse : List ℕ → Option (List (List ℕ × List ℕ × List ℕ))) where
    abbrev load_home : Conf → Option (List (List ℕ × List ℕ × List ℕ)) → Outcome Conf
    load_home s none = ok s
    load_home s (some settings) = apply_settings s settings

    abbrev from_home : Conf → Option (List ℕ) → Outcome Conf
    from_home s none = ok s
    from_home s (some home) =
        let rest = 0x2f ∷ codes "/.config/it.glgprograms.retrofficina/ceda-cemu.ini" in
        load_home s (ini_parse (take (conf_path_size - 1) (home ++ rest)))

    abbrev load_cwd :
        Conf → Option (List ℕ) → Option (List (List ℕ × List ℕ × List ℕ)) → Outcome Conf
    load_cwd s home none = from_home s home
    load_cwd s home (some settings) = apply_settings s settings

    unfoldable pub conf_init : Conf → Option (List ℕ) → Outcome Conf
    conf_init s home = load_cwd s home (ini_parse (codes "./ceda-cemu.ini"))

abbrev pub cleanup_value : Conf → Value → Outcome Conf
cleanup_value s (conf_bool f) = ok s
cleanup_value s (conf_str f) = do
  strings ← delete_old s.strings (s.paths f)
  ok (record s { strings = strings })

-- `conf_cleanup` over a table.
unfoldable pub conf_cleanup : List ConfTuple → Conf → Outcome Conf
conf_cleanup [] s = ok s
conf_cleanup (t ∷ ts) s = do u ← cleanup_value s t.value; conf_cleanup ts u

-- `conf_getType`: the entry's value, if there is one.
unfoldable pub conf_get_type :
    List ConfTuple → List ℕ → List ℕ → (Value → Bool) → Outcome (Option Value)
conf_get_type [] section key is_type = ok none
conf_get_type (t ∷ ts) section key is_type = elim (str_eq t.section section && str_eq t.key key) [
  | false ↦ conf_get_type ts section key is_type
  | true ↦ do check (is_type t.value) Fault.assertion; ok (some t.value)
]

abbrev pub is_str : Value → Bool
is_str (conf_bool f) = false
is_str (conf_str f) = true

abbrev pub is_bool : Value → Bool
is_bool (conf_bool f) = true
is_bool (conf_str f) = false

abbrev bool_at : Conf → Option Value → Option Bool
bool_at s (some (conf_bool f)) = some (s.bools f)
bool_at s other = none

-- `conf_getBool`: what it points to.
unfoldable pub conf_get_bool : Conf → List ℕ → List ℕ → Outcome (Option Bool)
conf_get_bool s section key = do v ← conf_get_type conf_tuples section key is_bool; ok (bool_at s v)

abbrev data_of : List CedaString → Option ℕ → Outcome (Option (List ℕ))
data_of strings none = ok none
data_of strings (some i) = do text ← ceda_string_data (get_or strings i zero_string); ok (some text)

abbrev string_at : Conf → Option Value → Outcome (Option (List ℕ))
string_at s (some (conf_str f)) = data_of s.strings (s.paths f)
string_at s other = ok none

unfoldable pub conf_get_string : Conf → List ℕ → List ℕ → Outcome (Option (List ℕ))
conf_get_string s section key = do v ← conf_get_type conf_tuples section key is_str; string_at s v
