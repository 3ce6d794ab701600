-- ===== src/Share/Config/Definitions.antt =====
-- What a configuration holds after a file was read, in terms of the lines of the file.
use pp_cnn.Prelude.{
  ℕ, suc, ◌+◌, ◌≡◌, refl, sym, ap, ◌∙◌, true, false, Option, none, some, List, [], ◌∷◌, arith,
  Result, err, file_error, ◌==◌, if◌then◌else◌, Bool-cases, Option-cases, inl, inr, take, ==_iff,
  ◌⊎◌, Returns, ap₂,
}
use pp_cnn.Share.Utility.{Text, contains, find_first, split}
use pp_cnn.Share.Utility.Words.{words, split-words}
use pp_cnn.Share.Config.{
  same_text, find_value, emplace_value, get_value, is_exist_key, config_get_value, get_lines,
  delete_comment, config_delims, add_words, load_lines, load_from_file,
}

-- the line up to the first `#`
unfoldable pub before_hash : Text → Text
before_hash [] = []
before_hash (c ∷ s) = elim (c == b'#') [ true ↦ [] | false ↦ c ∷ before_hash s ]

-- the second word of a line whose first word is the key
abbrev pub value_in : Text → List Text → Option Text
value_in key [] = none
value_in key (k ∷ []) = none
value_in key (k ∷ (v ∷ more)) = if same_text key k then some v else none

-- the first of two that is there
abbrev pub or_else : Option Text → Option Text → Option Text
or_else none o = o
or_else (some v) o = some v

-- the value in the first line that defines the key
unfoldable pub defined : Text → List Text → Option Text
defined key [] = none
defined key (line ∷ lines) =
    or_else (value_in key (words (contains config_delims) [] (before_hash line)))
      (defined key lines)

find_hash :
    (i : ℕ) (line : Text)
    → (find_first (λ c. c == b'#') i line ≡ none) × (before_hash line ≡ line)
      ⊎ ((k : ℕ) × (find_first (λ c. c == b'#') i line ≡ some (i + k))
          × (before_hash line ≡ take k line))
unfolding find_first before_hash
find_hash i [] = inl (refl, refl)
find_hash i (c ∷ line) = elim (Bool-cases (c == b'#')) [
  | inl t ↦
      inr (
        0,
        rw (find_first, t) (ap some {x = i} {y = i + 0} (omega arith)),
        rw (before_hash, t) refl,
      )
  | inr f ↦ elim (find_hash (suc i) line) [
    | inl (e, same) ↦ inl (rw (find_first, f) e, rw (before_hash, f) (ap (◌∷◌ c) same))
    | inr (k, e, same) ↦ inr (
      suc k,
      rw (find_first, f) (e ∙ ap some {x = suc i + k} {y = i + suc k} (omega arith)),
      rw (before_hash, f) (ap (◌∷◌ c) same),
    )
  ]
]

delete_comment-before_hash : (line : Text) → delete_comment line ≡ before_hash line
unfolding delete_comment
delete_comment-before_hash line = elim (find_hash 0 line) [
  | inl (e, same) ↦ rw e (sym same)
  | inr (k, e, same) ↦ rw e (ap (λ n. take n line) {x = 0 + k} {y = k} (omega arith) ∙ sym same)
]

same_text→≡ : (s t : Text) → same_text s t ≡ true → s ≡ t
same_text→≡ [] [] h = refl
same_text→≡ [] (d ∷ t) h = cc
same_text→≡ (c ∷ s) [] h = cc
same_text→≡ (c ∷ s) (d ∷ t) h = elim (Bool-cases (c == d)) [
  | inl e ↦ ap₂ ◌∷◌ ((==_iff c d).0 e) (same_text→≡ s t (rw e at h))
  | inr f ↦ cc (rw f at h)
]

or_else-none : (o : Option Text) → o ≡ or_else o none
or_else-none none = refl
or_else-none (some v) = refl

or_else_assoc : (a b c : Option Text) → or_else (or_else a b) c ≡ or_else a (or_else b c)
or_else_assoc none b c = refl
or_else_assoc (some v) b c = refl

find_value-emplace_value :
    (key k v : Text) (map : List (Text × Text))
    → find_value key (emplace_value k v map)
      ≡ or_else (find_value key map) (if same_text key k then some v else none)
unfolding emplace_value find_value
find_value-emplace_value key k v map = elim (Bool-cases (same_text key k)) [
  | inr f ↦ elim (Option-cases (find_value k map)) [
    | inl new ↦ rw (emplace_value, new, find_value, f) (or_else-none (find_value key map))
    | inr (w, old) ↦ rw (emplace_value, old, f) (or_else-none (find_value key map))
  ]
  | inl t ↦
      let e = same_text→≡ key k t in
      elim (Option-cases (find_value k map)) [
        | inl new ↦
            let new' : find_value key map ≡ none = ap (λ j. find_value j map) e ∙ new in
            rw (emplace_value, new, find_value, t, new') refl
        | inr (w, old) ↦
            let old' : find_value key map ≡ some w = ap (λ j. find_value j map) e ∙ old in
            rw (emplace_value, old, t, old') refl
      ]
]

find_value-add_words :
    (key : Text) (vec_str : List Text) (map : List (Text × Text))
    → find_value key (add_words vec_str map) ≡ or_else (find_value key map) (value_in key vec_str)
unfolding add_words
find_value-add_words key [] map = or_else-none (find_value key map)
find_value-add_words key (k ∷ []) map = or_else-none (find_value key map)
find_value-add_words key (k ∷ (v ∷ more)) map = find_value-emplace_value key k v map

find_value-load_lines :
    (key : Text) (lines : List Text) (map : List (Text × Text))
    → find_value key (load_lines lines map) ≡ or_else (find_value key map) (defined key lines)
unfolding load_lines defined
find_value-load_lines key [] map = or_else-none (find_value key map)
find_value-load_lines key (line ∷ lines) map =
    let vec_str = split (delete_comment line) config_delims in
    let same : vec_str ≡ words (contains config_delims) [] (before_hash line) =
      split-words (delete_comment line) config_delims
      ∙ ap (words (contains config_delims) []) (delete_comment-before_hash line) in
    find_value-load_lines key lines (add_words vec_str map)
    ∙ ap (λ o. or_else o (defined key lines)) (find_value-add_words key vec_str map)
    ∙ or_else_assoc (find_value key map) (value_in key vec_str) (defined key lines)
    ∙ ap (λ ws. or_else (find_value key map) (or_else (value_in key ws) (defined key lines))) same

abbrev pub converted : {A : Type 0} → (Text → Result A) → Option Text → Result A
converted convert none = err file_error
converted convert (some v) = convert v

config_get_value-find_value :
    {A : Type 0} (convert : Text → Result A) (key : Text) (map : List (Text × Text))
    → config_get_value convert key map ≡ converted convert (find_value key map)
unfolding config_get_value is_exist_key get_value
config_get_value-find_value convert key map = elim (Option-cases (find_value key map)) [
  | inl e ↦ rw e refl
  | inr (v, e) ↦ rw e refl
]

-- After a file that is not empty was read into an empty configuration, the value of a key is the
-- second word of the first line whose first word is the key, where words are what the scanner finds
-- before the first `#`, and a key with no such line is an error of the file. A file that is missing
-- or empty is an error.
pub load_from_file-defined :
    {A : Type 0} (convert : Text → Result A) (key : Text) (c : ℕ) (text : Text)
    → Returns (load_from_file (some (c ∷ text)) []) (λ map.
      config_get_value convert key map ≡ converted convert (defined key (get_lines [] (c ∷ text))))
      × (load_from_file none [] ≡ err file_error)
      × (load_from_file (some []) [] ≡ err file_error)
unfolding load_from_file find_value
load_from_file-defined convert key c text =
    let lines = get_lines [] (c ∷ text) in
    (
      (
        load_lines lines [],
        refl,
        config_get_value-find_value convert key (load_lines lines [])
            ∙ ap (converted convert) (find_value-load_lines key lines []),
      ),
      refl,
      refl,
    )
