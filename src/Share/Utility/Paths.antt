-- ===== src/Share/Utility/Paths.antt =====
-- The parts of a path (ppcnn/ppcnn_share/ppcnn_utility.cpp).
use mathlib.Core.List.{append_assoc}
use pp_cnn.Prelude.{
  ℕ, suc, ◌+◌, ◌-◌, ◌≡◌, refl, sym, ap, ◌∙◌, Bool, true, false, none, some, [], ◌∷◌, ◌++◌, arith,
  length, take, drop, Option-cases, inl, inr, ◌==◌, length-append,
}
use pp_cnn.Share.Streams.Words.{drop-append_more}
use pp_cnn.Share.Utility.{
  Text, find_last, find_last_of, after, basename, get_dirname, get_filename, get_extname,
}
use pp_cnn.Share.Utility.Search.{drop_next, take-append-drop, Lacks, find_last-none, find_last-some}

find_last_lacking :
    (is_kind : ℕ → Bool) (i : ℕ) (s : Text) → Lacks is_kind s → find_last is_kind i s ≡ none
unfolding find_last
find_last_lacking is_kind i [] l = refl
find_last_lacking is_kind i (c ∷ s) l =
    rw (find_last, find_last_lacking is_kind (suc i) s l.1, l.0) refl

find_last-append :
    (is_kind : ℕ → Bool) (i : ℕ) (xs : Text) (c : ℕ) (ys : Text)
    → is_kind c ≡ true
    → Lacks is_kind ys
    → find_last is_kind i (xs ++ c ∷ ys) ≡ some (i + length xs)
unfolding find_last
find_last-append is_kind i [] c ys t l =
    rw (find_last, find_last_lacking is_kind (suc i) ys l, t)
      (ap some {x = i} {y = i + 0} (omega arith))
find_last-append is_kind i (x ∷ xs) c ys t l =
    rw (find_last, find_last-append is_kind (suc i) xs c ys t l)
      (ap some {x = suc i + length xs} {y = i + suc (length xs)} (omega arith))

abbrev is_slash : ℕ → Bool
is_slash d = d == b'/'

abbrev is_dot : ℕ → Bool
is_dot d = d == b'.'

basename_lacking : (path : Text) → Lacks is_slash (drop (after (find_last_of path b'/')) path)
basename_lacking path = elim (Option-cases (find_last_of path b'/')) [
  | inl e ↦ rw e (find_last-none is_slash 0 path e)
  | inr (j, e) ↦
      let f = find_last-some is_slash 0 path j e in
      let there : drop j path ≡ f.c ∷ f.rest =
        ap (λ n. drop n path) {x = j} {y = f.k} (omega (arith, f.position)) ∙ f.here in
      rw (e, drop_next j path f.c f.rest there) f.behind
]

-- The directory and the base name make up the path, the base name has no slash, and `get_filename`
-- with the extension is the base name.
pub get_dirname-basename :
    (path : Text)
    → (get_dirname path ++ basename path ≡ path)
      × Lacks (λ d. d == b'/') (basename path)
      × (get_filename path false ≡ basename path)
unfolding get_dirname basename get_filename
get_dirname-basename path =
    (take-append-drop (after (find_last_of path b'/')) path, basename_lacking path, refl)

drop_behind : (xs : Text) (c : ℕ) (ys : Text) → drop (length xs + 1) (xs ++ c ∷ ys) ≡ ys
drop_behind xs c ys = drop-append_more 1 xs (c ∷ ys)

Lacks-append :
    (is_kind : ℕ → Bool) (xs ys : Text)
    → Lacks is_kind xs
    → Lacks is_kind ys
    → Lacks is_kind (xs ++ ys)
Lacks-append is_kind [] ys l m = m
Lacks-append is_kind (x ∷ xs) ys l m = (l.0, Lacks-append is_kind xs ys l.1 m)

module _ (dir stem ext : Text) (stem_lacks : Lacks (λ d. d == b'/') stem)
    (ext_lacks : Lacks (λ d. d == b'/') ext) (ext_lacks_dot : Lacks (λ d. d == b'.') ext) where
  abbrev file : Text
  file = stem ++ b'.' ∷ ext

  abbrev path : Text
  path = dir ++ b'/' ∷ file

  slash : find_last_of path b'/' ≡ some (length dir)
  slash =
      find_last-append is_slash 0 dir b'/' file refl
        (Lacks-append is_slash stem (b'.' ∷ ext) stem_lacks (refl, ext_lacks))
      ∙ ap some {x = 0 + length dir} (omega arith)

  dot_of_file : find_last_of file b'.' ≡ some (length stem)
  dot_of_file =
      find_last-append is_dot 0 stem b'.' ext refl ext_lacks_dot
      ∙ ap some {x = 0 + length stem} (omega arith)

  dot_of_path : find_last_of path b'.' ≡ some (length dir + suc (length stem))
  dot_of_path =
      let split : path ≡ (dir ++ b'/' ∷ stem) ++ b'.' ∷ ext =
        sym (append_assoc dir (b'/' ∷ stem) (b'.' ∷ ext)) in
      ap (λ s. find_last_of s b'.') split
      ∙ find_last-append is_dot 0 (dir ++ b'/' ∷ stem) b'.' ext refl ext_lacks_dot
      ∙ ap some {x = 0 + length (dir ++ b'/' ∷ stem)}
          (omega (arith, length-append dir (b'/' ∷ stem)))

  -- Of a path with a directory and an extension, whose parts have no further slash and whose
  -- extension has no further dot, `get_extname` is the extension. But `get_filename` without the
  -- extension is as many characters of the file name as the extension has, and not its stem.
  pub get_filename-get_extname :
      (basename (dir ++ b'/' ∷ (stem ++ b'.' ∷ ext)) ≡ stem ++ b'.' ∷ ext)
      × (get_extname (dir ++ b'/' ∷ (stem ++ b'.' ∷ ext)) ≡ ext)
      × (get_filename (dir ++ b'/' ∷ (stem ++ b'.' ∷ ext)) true
          ≡ take (length ext) (stem ++ b'.' ∷ ext))
  unfolding basename get_extname get_filename
  get_filename-get_extname =
      let name = drop_behind dir b'/' file in
      let count : length path - (length dir + suc (length stem) + 1) ≡ length ext =
        omega (arith, length-append dir (b'/' ∷ file), length-append stem (b'.' ∷ ext)) in
      (
        rw slash name,
        rw (slash, name, dot_of_file) (drop_behind stem b'.' ext),
        rw (slash, name, dot_of_path, count) refl,
      )
