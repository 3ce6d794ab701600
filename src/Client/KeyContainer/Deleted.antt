-- ===== src/Client/KeyContainer/Deleted.antt =====
-- What `delete_keys` does: the loop over the kinds meets one that has no file name.
use pp_cnn.Prelude.{
  ℕ, ◌≡◌, refl, sym, ap, ◌∙◌, Bool, true, false, Option, none, some, List, [], ◌∷◌, ok, err,
  out_of_range, Bool-cases, inl, inr, arith, if◌then◌else◌,
}
use pp_cnn.Share.Streams.{Bytes}
use pp_cnn.Client.KeyFiles.{
  KeyKind, kind_pub_key, kind_sec_key, kind_galois_key, kind_relin_key, kind_param, Filename, Files,
  same_file, read_file, delete_file, key_filenames, filename, find_filename,
}
use pp_cnn.Client.KeyContainer.{State, find_key, remove_kinds, remove_keyfiles, delete_keys}

-- the files of two names are the same, or are told apart by a third, as the names are equal or not
same_file-congr : (a b c : Filename) → same_file b c ≡ true → same_file b a ≡ same_file a c
unfolding same_file
same_file-congr a b c h = ground arith

same_file_trans : (a b c : Filename) → same_file b a ≡ true → same_file a c ≡ same_file b c
unfolding same_file
same_file_trans a b c h = ground arith

if_none {ℓ} :
    {A : Type ℓ} (b : Bool) (x y : Option A)
    → (if b then none else (if b then x else y)) ≡ (if b then none else y)
if_none true x y = refl
if_none false x y = refl

-- A file that is deleted is missing, and every other one is as before.
pub read_file-delete_file :
    (a b : Filename) (files : Files)
    → read_file a (delete_file b files) ≡ (if same_file b a then none else read_file a files)
unfolding read_file delete_file
read_file-delete_file a b [] = elim (Bool-cases (same_file b a)) [
  | inl t ↦ rw t refl
  | inr f ↦ rw f refl
]
read_file-delete_file a b ((n, bytes) ∷ files) = elim (Bool-cases (same_file b n)) [
  | inl t ↦
      rw (delete_file, t)
        (read_file-delete_file a b files
          ∙ rw (same_file-congr a b n t)
              (sym (if_none (same_file a n) (some bytes) (read_file a files))))
  | inr f ↦ elim (Bool-cases (same_file b a)) [
    | inl u ↦
        let g : same_file a n ≡ false = same_file_trans a b n u ∙ f in
        rw (delete_file, f, read_file, g) (read_file-delete_file a b files ∙ rw u refl)
    | inr u ↦
        rw (delete_file, f, u)
          (ap (λ o. if same_file a n then some bytes else o)
            (read_file-delete_file a b files ∙ rw u refl))
  ]
]

abbrev pub file : KeyKind → ℕ → Filename
file kind key_id = record { prefix = kind; key_id = key_id }

same_self : (kind : KeyKind) (key_id : ℕ) → same_file (file kind key_id) (file kind key_id) ≡ true
unfolding same_file
same_self kind key_id = ground arith

differ :
    (key_id : ℕ)
    → (same_file (file kind_pub_key key_id) (file kind_sec_key key_id) ≡ false)
      × (same_file (file kind_sec_key key_id) (file kind_pub_key key_id) ≡ false)
      × (same_file (file kind_sec_key key_id) (file kind_relin_key key_id) ≡ false)
      × (same_file (file kind_pub_key key_id) (file kind_relin_key key_id) ≡ false)
      × (same_file (file kind_sec_key key_id) (file kind_param key_id) ≡ false)
      × (same_file (file kind_pub_key key_id) (file kind_param key_id) ≡ false)
unfolding same_file
differ key_id = (refl, refl, refl, refl, refl, refl)

-- the rest of the loop, from the kind of the Galois keys on
remove_kinds_galois :
    (key_id : ℕ) (files : Files)
    → remove_kinds
        (kind_galois_key ∷ (kind_relin_key ∷ (kind_param ∷ [])))
        (key_filenames key_id)
        files
      ≡ (err out_of_range, files)
unfolding remove_kinds filename find_filename key_filenames
remove_kinds_galois key_id files = refl

remove_kind_first :
    (kind : KeyKind) (kinds : List KeyKind) (key_id : ℕ) (files : Files) (bytes : Bytes)
    → filename kind (key_filenames key_id) ≡ ok (file kind key_id)
    → read_file (file kind key_id) files ≡ some bytes
    → remove_kinds (kind ∷ kinds) (key_filenames key_id) files
      ≡ remove_kinds kinds (key_filenames key_id) (delete_file (file kind key_id) files)
unfolding remove_kinds
remove_kind_first kind kinds key_id files bytes named there = rw (remove_kinds, named, there) refl

-- Of a key whose files are there, `delete_keys` always throws: it removes the files of the public and
-- of the secret key, and then finds no name for the Galois keys. The identifier stays in the
-- container, and the files of the relinearization keys and of the parameters stay as they were.
pub delete_keys_throws :
    (key_id : ℕ) (s : State) (public secret : Bytes)
    → find_key key_id s.map ≡ some (key_filenames key_id)
    → read_file (file kind_pub_key key_id) s.files ≡ some public
    → read_file (file kind_sec_key key_id) s.files ≡ some secret
    → (s' : State) × (delete_keys key_id s ≡ (err out_of_range, s'))
      × (s'.map ≡ s.map)
      × (read_file (file kind_pub_key key_id) s'.files ≡ none)
      × (read_file (file kind_sec_key key_id) s'.files ≡ none)
      × (read_file (file kind_relin_key key_id) s'.files
          ≡ read_file (file kind_relin_key key_id) s.files)
      × (read_file (file kind_param key_id) s'.files ≡ read_file (file kind_param key_id) s.files)
unfolding delete_keys remove_keyfiles filename find_filename key_filenames
delete_keys_throws key_id s public secret found pk sk =
    let without = delete_file (file kind_pub_key key_id) s.files in
    let files = delete_file (file kind_sec_key key_id) without in
    let sk' : read_file (file kind_sec_key key_id) without ≡ some secret =
      read_file-delete_file (file kind_sec_key key_id) (file kind_pub_key key_id) s.files
      ∙ rw (differ key_id).0 sk in
    let loop =
      remove_kind_first kind_pub_key
        (kind_sec_key ∷ (kind_galois_key ∷ (kind_relin_key ∷ (kind_param ∷ [])))) key_id s.files
        public refl pk
      ∙ remove_kind_first kind_sec_key (kind_galois_key ∷ (kind_relin_key ∷ (kind_param ∷ [])))
          key_id without secret refl sk'
      ∙ remove_kinds_galois key_id files in
    let back = λ (kind : KeyKind).
      read_file-delete_file (file kind key_id) (file kind_sec_key key_id) without in
    let front = λ (kind : KeyKind).
      read_file-delete_file (file kind key_id) (file kind_pub_key key_id) s.files in
    let d = differ key_id in
    (
      record { map = s.map; files = files },
      rw (found, loop) refl,
      refl,
      back kind_pub_key ∙ rw d.1 (front kind_pub_key ∙ rw (same_self kind_pub_key key_id) refl),
      back kind_sec_key ∙ rw (same_self kind_sec_key key_id) refl,
      back kind_relin_key ∙ rw d.2 (front kind_relin_key ∙ rw d.3 refl),
      back kind_param ∙ rw d.4 (front kind_param ∙ rw d.5 refl),
    )
