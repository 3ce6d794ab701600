-- ===== src/Client/KeyContainer/Generated.antt =====
-- What `new_keys` leaves behind, and what `get` and `get_param` read of it.
use pp_cnn.Prelude.{
  ℕ, ◌^◌, ◌≡◌, refl, sym, ap, ◌∙◌, true, none, some, List, [], ◌∷◌, Result, ok, ◌==◌, Bool-cases,
  inl, inr, ==_iff, ◌⊎◌,
}
use pp_cnn.Share.Streams.{Codec}
use pp_cnn.Share.SealUtility.Transfer.{load-save_all}
use pp_cnn.Client.KeyFiles.{
  KeyKind, write_file, kind_pub_key, kind_sec_key, kind_relin_key, kind_param, Files, read_file,
  same_file, KeyFilenames, key_filenames, filename, find_filename,
}
use pp_cnn.Client.KeyContainer.{
  State, find_key, emplace_key, bit_sizes, KeySet, save_keyfiles, generate_keyfiles, new_keys,
  key_file, get_param, get,
}

-- Each identifier has the file names that are made from it.
abbrev pub Named : List (ℕ × KeyFilenames) → Type 0
Named [] = Unit
Named ((k, names) ∷ map) = (names ≡ key_filenames k) × Named map

find_key-Named :
    (id : ℕ) (map : List (ℕ × KeyFilenames))
    → Named map
    → (find_key id map ≡ none) ⊎ (find_key id map ≡ some (key_filenames id))
unfolding find_key
find_key-Named id [] named = inl refl
find_key-Named id ((k, names) ∷ map) named = elim (Bool-cases (id == k)) [
  | inl t ↦ inr (rw (find_key, t) (ap some (named.0 ∙ ap key_filenames (sym ((==_iff id k).0 t)))))
  | inr f ↦ rw (find_key, f) (find_key-Named id map named.1)
]

pub find_key-emplace_key :
    (id : ℕ) (map : List (ℕ × KeyFilenames))
    → Named map
    → (find_key id (emplace_key id (key_filenames id) map) ≡ some (key_filenames id))
      × Named (emplace_key id (key_filenames id) map)
unfolding emplace_key find_key
find_key-emplace_key id map named = elim (find_key-Named id map named) [
  | inl e ↦ rw (emplace_key, e) (rw (find_key, (==_iff id id).1 refl) refl, (refl, named))
  | inr e ↦ rw (emplace_key, e) (e, named)
]

module _ {Params PublicKey SecretKey RelinKeys : Type 0} (params : Codec (Unit {0}) Params)
    (public_keys : Codec Params PublicKey) (secret_keys : Codec Params SecretKey)
    (relin_keys : Codec Params RelinKeys)
    (generate : ℕ → List ℕ → Result (KeySet Params PublicKey SecretKey RelinKeys)) where
  -- Keys of SEAL that were generated for one set of parameters.
  pub record Matching (keys : KeySet Params PublicKey SecretKey RelinKeys) : Type 0 where
    pub params_valid : params.IsValidFor tt keys.params
    pub public_valid : public_keys.IsValidFor keys.params keys.public_key
    pub secret_valid : secret_keys.IsValidFor keys.params keys.secret_key
    pub relin_valid : relin_keys.IsValidFor keys.params keys.relin_keys

  -- the state in which the keys are found
  record Stored (id : ℕ) (keys : KeySet Params PublicKey SecretKey RelinKeys) (s : State)
      : Type 0 where
    pub_key : key_file id kind_pub_key s ≡ ok (public_keys.save keys.public_key)
    sec_key : key_file id kind_sec_key s ≡ ok (secret_keys.save keys.secret_key)
    relin_key : key_file id kind_relin_key s ≡ ok (relin_keys.save keys.relin_keys)
    param : key_file id kind_param s ≡ ok (params.save keys.params)

  get-Stored :
      {A : Type 0} (codec : Codec Params A) (id : ℕ) (kind : KeyKind) (s : State)
      (keys : KeySet Params PublicKey SecretKey RelinKeys) (x : A)
      → key_file id kind_param s ≡ ok (params.save keys.params)
      → params.IsValidFor tt keys.params
      → key_file id kind s ≡ ok (codec.save x)
      → codec.IsValidFor keys.params x
      → get params codec id kind s ≡ ok x
  unfolding get get_param
  get-Stored codec id kind s keys x param valid e v =
      rw (e, param, load-save_all params tt keys.params valid, load-save_all codec keys.params x v)
        refl

  files_of : ℕ → KeySet Params PublicKey SecretKey RelinKeys → Files → Files
  files_of id keys files =
      write_file (record { prefix = kind_relin_key; key_id = id }) (relin_keys.save keys.relin_keys)
        (write_file (record { prefix = kind_param; key_id = id }) (params.save keys.params)
          (write_file (record { prefix = kind_sec_key; key_id = id })
            (secret_keys.save keys.secret_key)
            (write_file (record { prefix = kind_pub_key; key_id = id })
              (public_keys.save keys.public_key) files)))

  save_keyfiles_lem :
      (id : ℕ) (keys : KeySet Params PublicKey SecretKey RelinKeys) (files : Files)
      → save_keyfiles params public_keys secret_keys relin_keys generate keys
          (key_filenames id)
          files
        ≡ ok (files_of id keys files)
  unfolding save_keyfiles filename find_filename key_filenames files_of
  save_keyfiles_lem id keys files = refl

  files_of-Stored :
      (id : ℕ) (keys : KeySet Params PublicKey SecretKey RelinKeys) (map : List (ℕ × KeyFilenames))
      (files : Files)
      → find_key id map ≡ some (key_filenames id)
      → Stored id keys (record { map = map; files = files_of id keys files })
  unfolding key_file filename find_filename read_file same_file key_filenames files_of
  files_of-Stored id keys map files e =
      let self : (id == id) ≡ true = (==_iff id id).1 refl in
      record {
        pub_key = rw (e, self) refl;
        sec_key = rw (e, self) refl;
        relin_key = rw (e, self) refl;
        param = rw (e, self) refl;
      }

  -- Where the generator makes matching keys for `2^power` and the bit sizes of the level, `new_keys`
  -- returns the identifier, and the keys and the parameters that are then read under it are those
  -- that were made. That holds of every identifier, of one that the container has keys of too, and
  -- the names in the container remain those that are made from the identifiers.
  pub new_keys-get :
      (uuid power level : ℕ) (s : State) (keys : KeySet Params PublicKey SecretKey RelinKeys)
      → Named s.map
      → generate (2 ^ power) (bit_sizes level) ≡ ok keys
      → Matching keys
      → (s' : State) × (new_keys params public_keys secret_keys relin_keys generate uuid power level
            s
          ≡ (ok uuid, s'))
        × Named s'.map
        × (get params public_keys uuid kind_pub_key s' ≡ ok keys.public_key)
        × (get params secret_keys uuid kind_sec_key s' ≡ ok keys.secret_key)
        × (get params relin_keys uuid kind_relin_key s' ≡ ok keys.relin_keys)
        × (get_param params uuid s' ≡ ok keys.params)
  unfolding new_keys generate_keyfiles get_param
  new_keys-get uuid power level s keys named made m =
      let (found, named') = find_key-emplace_key uuid s.map named in
      let map = emplace_key uuid (key_filenames uuid) s.map in
      let s' : State = record { map = map; files = files_of uuid keys s.files } in
      let stored = files_of-Stored uuid keys map s.files found in
      (
        s',
        rw (found, made, save_keyfiles_lem uuid keys s.files) refl,
        named',
        get-Stored public_keys uuid kind_pub_key s' keys keys.public_key stored.param m.params_valid
            stored.pub_key m.public_valid,
        get-Stored secret_keys uuid kind_sec_key s' keys keys.secret_key stored.param m.params_valid
            stored.sec_key m.secret_valid,
        get-Stored relin_keys uuid kind_relin_key s' keys keys.relin_keys stored.param
            m.params_valid stored.relin_key m.relin_valid,
        rw (stored.param, load-save_all params tt keys.params m.params_valid) refl,
      )
