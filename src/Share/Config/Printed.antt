-- ===== src/Share/Config/Printed.antt =====
-- A configuration that is written with one line `key = value` for each entry, and read again.
use mathlib.Core.List.{append_assoc, append-nil}
use pp_cnn.Prelude.{
  ℕ, ◌≡◌, refl, sym, ap, ap₂, subst, ◌∙◌, Bool, true, false, Option, none, some, List, [], ◌∷◌,
  ◌++◌, arith, Result, ◌==◌, if◌then◌else◌, Returns,
}
use pp_cnn.Share.Utility.{Text, contains}
use pp_cnn.Share.Utility.Search.{Lacks}
use pp_cnn.Share.Utility.Words.{words, words_last}
use pp_cnn.Share.Config.{
  same_text, find_value, config_get_value, get_lines, config_delims, load_from_file,
}
use pp_cnn.Share.Config.Definitions.{
  before_hash, or_else, defined, converted, load_from_file-defined,
}

-- A key or a value: at least one character, no delimiter and no `#`.
pub record IsWord (w : Text) : Type 0 where
  pub c : ℕ
  pub s : Text
  pub nonempty : w ≡ c ∷ s
  pub whole : Lacks (contains config_delims) w
  pub no_hash : Lacks (λ d. d == b'#') w

abbrev pub AreWords : List (Text × Text) → Type 0
AreWords [] = Unit
AreWords ((k, v) ∷ entries) = (IsWord k × IsWord v) × AreWords entries

pub print_line : Text × Text → Text
print_line (k, v) = k ++ b' ' ∷ b'=' ∷ b' ' ∷ v

pub print : List (Text × Text) → Text
print [] = []
print (e ∷ entries) = print_line e ++ b'\n' ∷ print entries

words_front :
    (d : ℕ → Bool) (a : ℕ) (cur s : Text) (c : ℕ) (rest : Text)
    → Lacks d s
    → d c ≡ true
    → words d (a ∷ cur) (s ++ c ∷ rest) ≡ (a ∷ cur ++ s) ∷ words d [] rest
unfolding words
words_front d a cur [] c rest l t =
    rw (words, t) (ap (λ w. (a ∷ w) ∷ words d [] rest) (sym (append-nil cur)))
words_front d a cur (x ∷ s) c rest l t =
    rw (words, l.0)
      (words_front d a (cur ++ x ∷ []) s c rest l.1 t
        ∙ ap (λ w. (a ∷ w) ∷ words d [] rest) (append_assoc cur (x ∷ []) s))

-- The words of a printed line are the key and the value.
words-print_line :
    (k v : Text)
    → IsWord k
    → IsWord v
    → words (contains config_delims) [] (print_line (k, v)) ≡ k ∷ (v ∷ [])
unfolding print_line words contains
words-print_line k v hk hv =
    let d = contains config_delims in
    let lk : Lacks d (hk.c ∷ hk.s) = rw hk.nonempty at hk.whole in
    let lv : Lacks d (hv.c ∷ hv.s) = rw hv.nonempty at hv.whole in
    let tail = b' ' ∷ b'=' ∷ b' ' ∷ v in
    let first : words d [] (k ++ tail) ≡ (hk.c ∷ hk.s) ∷ words d [] v =
      rw (hk.nonempty, words, lk.0) (words_front d hk.c [] hk.s b' ' (b'=' ∷ b' ' ∷ v) lk.1 refl) in
    let second : words d [] v ≡ (hv.c ∷ hv.s) ∷ [] =
      rw (hv.nonempty, words, lv.0) (words_last d hv.c [] hv.s lv.1) in
    first ∙ ap₂ (λ w ws. w ∷ ws) (sym hk.nonempty) (second ∙ ap (λ w. w ∷ []) (sym hv.nonempty))

before_hash_lem : (s : Text) → Lacks (λ d. d == b'#') s → before_hash s ≡ s
unfolding before_hash
before_hash_lem [] l = refl
before_hash_lem (c ∷ s) l = rw (before_hash, l.0) (ap (◌∷◌ c) (before_hash_lem s l.1))

get_lines-append :
    (line s rest : Text)
    → Lacks (λ d. d == b'\n') s
    → get_lines line (s ++ b'\n' ∷ rest) ≡ (line ++ s) ∷ get_lines [] rest
unfolding get_lines
get_lines-append [] [] rest l = refl
get_lines-append (c ∷ line) [] rest l =
    ap (λ w. (c ∷ w) ∷ get_lines [] rest) (sym (append-nil line))
get_lines-append [] (x ∷ s) rest l = rw (get_lines, l.0) (get_lines-append (x ∷ []) s rest l.1)
get_lines-append (c ∷ line) (x ∷ s) rest l =
    rw (get_lines, l.0)
      (get_lines-append (c ∷ line ++ x ∷ []) s rest l.1
        ∙ ap (λ w. (c ∷ w) ∷ get_lines [] rest) (append_assoc line (x ∷ []) s))

Lacks-weaken :
    (p q : ℕ → Bool) → ((c : ℕ) → p c ≡ false → q c ≡ false) → (s : Text) → Lacks p s → Lacks q s
Lacks-weaken p q h [] l = tt
Lacks-weaken p q h (c ∷ s) l = (h c l.0, Lacks-weaken p q h s l.1)

Lacks-append : (p : ℕ → Bool) (xs ys : Text) → Lacks p xs → Lacks p ys → Lacks p (xs ++ ys)
Lacks-append p [] ys l m = m
Lacks-append p (x ∷ xs) ys l m = (l.0, Lacks-append p xs ys l.1 m)

no_newline : (c : ℕ) → contains config_delims c ≡ false → (c == b'\n') ≡ false
unfolding contains
no_newline c h = ground arith

print_line-Lacks :
    (p : ℕ → Bool) (k v : Text)
    → Lacks p k
    → Lacks p v
    → p b' ' ≡ false
    → p b'=' ≡ false
    → Lacks p (print_line (k, v))
unfolding print_line
print_line-Lacks p k v lk lv s e = Lacks-append p k (b' ' ∷ b'=' ∷ b' ' ∷ v) lk (s, (e, (s, lv)))

or_else_if :
    (b : Bool) (v : Text) (o : Option Text)
    → or_else (if b then some v else none) o ≡ (if b then some v else o)
or_else_if true v o = refl
or_else_if false v o = refl

defined-print :
    (key : Text) (entries : List (Text × Text))
    → AreWords entries
    → defined key (get_lines [] (print entries)) ≡ find_value key entries
unfolding defined print get_lines find_value
defined-print key [] h = refl
defined-print key ((k, v) ∷ entries) h =
    let (hk, hv) = h.0 in
    let newline = λ (d : ℕ). d == b'\n' in
    let lines = get_lines-append [] (print_line (k, v)) (print entries) (
      print_line-Lacks newline k v
        (Lacks-weaken (contains config_delims) newline no_newline k hk.whole)
        (Lacks-weaken (contains config_delims) newline no_newline v hv.whole) refl refl) in
    let hash =
      before_hash_lem (print_line (k, v))
        (print_line-Lacks (λ d. d == b'#') k v hk.no_hash hv.no_hash refl refl) in
    rw (lines, defined, hash, words-print_line k v hk hv, defined-print key entries h.1)
      (or_else_if (same_text key k) v (find_value key entries))

print-cons :
    (k v : Text) (entries : List (Text × Text)) (hk : IsWord k)
    → print ((k, v) ∷ entries) ≡ hk.c ∷ (hk.s ++ (b' ' ∷ b'=' ∷ b' ' ∷ v) ++ b'\n' ∷ print entries)
unfolding print print_line
print-cons k v entries hk = rw hk.nonempty refl

-- Of a file with one line `key = value` for each of one or more entries, whose keys and values have
-- no delimiter and no `#`, `config_get_value` converts the value of the first entry of the key, and
-- refuses every other key as an error of the file.
pub load_from_file-print :
    {A : Type 0} (convert : Text → Result A) (key k v : Text) (entries : List (Text × Text))
    → AreWords ((k, v) ∷ entries)
    → Returns (load_from_file (some (print ((k, v) ∷ entries))) []) λ map.
      config_get_value convert key map ≡ converted convert (find_value key ((k, v) ∷ entries))
load_from_file-print convert key k v entries h =
    let text = print ((k, v) ∷ entries) in
    let P = λ (t : Text).
      Returns (load_from_file (some t) []) λ map.
        config_get_value convert key map ≡ converted convert (defined key (get_lines [] t)) in
    let hk = (h.0).0 in
    let rest = hk.s ++ (b' ' ∷ b'=' ∷ b' ' ∷ v) ++ b'\n' ∷ print entries in
    let split : text ≡ hk.c ∷ rest = print-cons k v entries hk in
    let (map, e, p) = subst P (sym split) (load_from_file-defined convert key hk.c rest).0 in
    (map, e, p ∙ ap (converted convert) (defined-print key ((k, v) ∷ entries) h))
