-- ===== src/Share/Utility.antt =====
-- `utility` (ppcnn/ppcnn_share/ppcnn_utility.cpp): searches in texts, words of a line, and the parts of a
-- path. A text is the list of the codes of its characters, and a position that is not found
-- (`std::string::npos`) is `none`.
pub mod Search
pub mod Words
pub mod Paths
use pp_cnn.Prelude.{
  ℕ, zero, suc, ◌+◌, ◌-◌, Bool, true, false, not, Option, none, some, List, [], ◌∷◌, ◌++◌, length,
  take, drop, ltb, ◌==◌, ◌||◌, if◌then◌else◌,
}

abbrev pub Text : Type 0
Text = List ℕ

unfoldable pub contains : Text → ℕ → Bool
contains [] c = false
contains (d ∷ s) c = c == d || contains s c

-- The first position of a character of the kind, where the text begins at the position `i`, and the
-- last one.
unfoldable pub find_first : (ℕ → Bool) → ℕ → Text → Option ℕ
find_first is_kind i [] = none
find_first is_kind i (c ∷ s) = if is_kind c then some i else find_first is_kind (suc i) s

unfoldable pub find_last : (ℕ → Bool) → ℕ → Text → Option ℕ
find_last is_kind i [] = none
find_last is_kind i (c ∷ s) = elim (find_last is_kind (suc i) s) [
  | some j ↦ some j
  | none ↦ if is_kind c then some i else none
]

-- `find_first_of(delims, pos)` and `find_first_not_of(delims, pos)`
abbrev pub find_first_of : Text → Text → ℕ → Option ℕ
find_first_of str delims pos = find_first (contains delims) pos (drop pos str)

abbrev pub find_first_not_of : Text → Text → ℕ → Option ℕ
find_first_not_of str delims pos = find_first (λ c. not (contains delims c)) pos (drop pos str)

-- `find_last_of(c)` and `find_last_not_of(delims)`
abbrev pub find_last_of : Text → ℕ → Option ℕ
find_last_of str c = find_last (λ d. d == c) 0 str

abbrev pub find_last_not_of : Text → Text → Option ℕ
find_last_not_of str delims = find_last (λ c. not (contains delims c)) 0 str

-- `substr(pos, n)` for a position within the text
abbrev pub substr : Text → ℕ → ℕ → Text
substr str pos n = take n (drop pos str)

-- the end of the word in `split`: the position found, or the end of the text
abbrev pub next_index : Text → Option ℕ → ℕ
next_index str none = length str
next_index str (some next) = if ltb (length str) next then length str else next

-- the loop of `split`, for so many rounds, with `index` and `vec_str`
unfoldable pub split_from : ℕ → Text → Text → Option ℕ → List Text → List Text
split_from zero str delims index vec_str = vec_str
split_from (suc rounds) str delims none vec_str = vec_str
split_from (suc rounds) str delims (some index) vec_str =
    let next = next_index str (find_first_of str delims index) in
    let rest =
      split_from rounds str delims (find_first_not_of str delims (next + 1))
        (vec_str ++ substr str index (next - index) ∷ []) in
    if ltb index (length str) then rest else vec_str

-- `split`: each round takes a character or more
unfoldable pub split : Text → Text → List Text
unfolding split_from
split str delims = split_from (suc (length str)) str delims (find_first_not_of str delims 0) []

-- `trim_string`
unfoldable pub trim_between : Text → Option ℕ → Option ℕ → Text
trim_between str none end = []
trim_between str (some bgn) none = drop bgn str
trim_between str (some bgn) (some end) = substr str bgn (end - bgn + 1)

unfoldable pub trim_string : Text → Text → Text
unfolding trim_between find_first find_last contains
trim_string str whitespace =
    trim_between str (find_first_not_of str whitespace 0) (find_last_not_of str whitespace)

-- `find_last_of(c) + 1`, where `npos + 1` wraps around to 0
abbrev pub after : Option ℕ → ℕ
after none = 0
after (some pos) = pos + 1

-- `basename`
unfoldable pub basename : Text → Text
unfolding find_last
basename filepath = drop (after (find_last_of filepath b'/')) filepath

-- `get_dirname`
unfoldable pub get_dirname : Text → Text
unfolding find_last
get_dirname path = substr path 0 (after (find_last_of path b'/'))

-- `get_filename`: a count of -1 takes the text to its end.
unfoldable pub get_filename : Text → Bool → Text
unfolding find_last
get_filename path false = drop (after (find_last_of path b'/')) path
get_filename path true =
    substr path (after (find_last_of path b'/')) (length path - after (find_last_of path b'.'))

-- `get_extname`
unfoldable pub get_extname : Text → Text
unfolding get_filename find_last
get_extname path =
    let filename = get_filename path false in drop (after (find_last_of filename b'.')) filename
