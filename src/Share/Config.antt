-- ===== src/Share/Config.antt =====
-- `Config` (ppcnn/ppcnn_share/ppcnn_config.cpp): the file of the names and values of a configuration. The
-- `std::unordered_map` is an association list, and a file is its text, or missing.
pub mod Definitions
pub mod Printed
use pp_cnn.Prelude.{
  ℕ, zero, suc, Bool, true, false, Option, none, some, List, [], ◌∷◌, ◌++◌, Result, ok, err,
  file_error, out_of_range, ◌>>=◌, or_throw, ◌==◌, ◌&&◌, if◌then◌else◌,
}
use pp_cnn.Share.Utility.{Text, find_first, substr, split}

abbrev pub same_text : Text → Text → Bool
same_text [] [] = true
same_text [] (d ∷ t) = false
same_text (c ∷ s) [] = false
same_text (c ∷ s) (d ∷ t) = c == d && same_text s t

-- `map_.count(key)` and `map_.at(key)`
unfoldable pub find_value : Text → List (Text × Text) → Option Text
find_value key [] = none
find_value key ((k, v) ∷ map) = if same_text key k then some v else find_value key map

-- `map_.emplace(key, value)`
unfoldable pub emplace_value : Text → Text → List (Text × Text) → List (Text × Text)
unfolding find_value
emplace_value key value map = elim (find_value key map) [ none ↦ (key, value) ∷ map | some v ↦ map ]

-- `Impl::get_value` and `Impl::is_exist_key`
unfoldable pub get_value : Text → List (Text × Text) → Result Text
get_value key map = or_throw out_of_range (find_value key map)

abbrev is_found : Option Text → Bool
is_found none = false
is_found (some v) = true

unfoldable pub is_exist_key : Text → List (Text × Text) → Bool
is_exist_key key map = is_found (find_value key map)

-- `config_get_value`, with the conversion of the standard library for the type
unfoldable pub config_get_value :
    {A : Type 0} → (Text → Result A) → Text → List (Text × Text) → Result A
unfolding get_value is_exist_key
config_get_value convert key map =
    if is_exist_key key map then get_value key map >>= convert else err file_error

-- what `std::getline` returns one after the other, where `line` has been read of the first
unfoldable pub get_lines : Text → Text → List Text
get_lines [] [] = []
get_lines (c ∷ line) [] = (c ∷ line) ∷ []
get_lines line (c ∷ s) = elim (c == b'\n') [
  | true ↦ line ∷ get_lines [] s
  | false ↦ get_lines (line ++ c ∷ []) s
]

abbrev cut_at : Text → Option ℕ → Text
cut_at line none = line
cut_at line (some pos) = substr line 0 pos

-- the comment of a line is deleted
unfoldable pub delete_comment : Text → Text
unfolding find_first
delete_comment line = cut_at line (find_first (λ c. c == b'#') 0 line)

-- `" ,=\t\r\n"`
abbrev pub config_delims : Text
config_delims = b' ' ∷ b',' ∷ b'=' ∷ b'\t' ∷ b'\r' ∷ b'\n' ∷ []

-- `if (vec_str.size() >= 2) map_.emplace(vec_str[0], vec_str[1])`
unfoldable pub add_words : List Text → List (Text × Text) → List (Text × Text)
add_words [] map = map
add_words (key ∷ []) map = map
add_words (key ∷ (value ∷ more)) map = emplace_value key value map

-- the loop over the lines
unfoldable pub load_lines : List Text → List (Text × Text) → List (Text × Text)
unfolding add_words delete_comment
load_lines [] map = map
load_lines (line ∷ lines) map =
    load_lines lines (add_words (split (delete_comment line) config_delims) map)

-- `Impl::load_from_file`
unfoldable pub load_from_file : Option Text → List (Text × Text) → Result (List (Text × Text))
unfolding load_lines get_lines
load_from_file none map = err file_error
load_from_file (some []) map = err file_error
load_from_file (some (c ∷ text)) map = ok (load_lines (get_lines [] (c ∷ text)) map)
