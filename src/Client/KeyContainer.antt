-- ===== src/Client/KeyContainer.antt =====
-- `KeyContainer` of the client (ppcnn/ppcnn_client/ppcnn_client_keycontainer.cpp): the keys that are
-- generated, and the files that hold them. The state of the container is passed on also where an
-- operation throws.
pub mod Generated
pub mod Deleted
use pp_cnn.Prelude.{
  ℕ, zero, suc, ◌^◌, Bool, true, false, ◌&&◌, Option, none, some, List, [], ◌∷◌, ◌++◌, replicate,
  length, Result, ok, err, out_of_range, invalid_param, file_error, ◌==◌, ltb, if◌then◌else◌, ◌>>=◌,
  or_throw,
}
use pp_cnn.Share.Streams.{Bytes, Codec}
use pp_cnn.Client.KeyFiles.{
  KeyKind, kind_pub_key, kind_sec_key, kind_galois_key, kind_relin_key, kind_param, Filename, Files,
  read_file, write_file, delete_file, KeyFilenames, key_filenames, filename,
}
use pp_cnn.Cnn.Options.{intermediate_primes_bit_size}

-- `map_`, and the files
pub record State : Type 0 where
  pub map : List (ℕ × KeyFilenames)
  pub files : Files

unfoldable pub find_key : ℕ → List (ℕ × KeyFilenames) → Option KeyFilenames
find_key key_id [] = none
find_key key_id ((k, names) ∷ map) = if key_id == k then some names else find_key key_id map

unfoldable pub emplace_key : ℕ → KeyFilenames → List (ℕ × KeyFilenames) → List (ℕ × KeyFilenames)
unfolding find_key
emplace_key key_id names map = elim (find_key key_id map) [
  | none ↦ (key_id, names) ∷ map
  | some old ↦ map
]

unfoldable pub erase_key : ℕ → List (ℕ × KeyFilenames) → List (ℕ × KeyFilenames)
erase_key key_id [] = []
erase_key key_id ((k, names) ∷ map) = if key_id == k then map else (k, names) ∷ erase_key key_id map

-- the bit sizes of the primes of the coefficient modulus
abbrev pub pre_suf_prime_bit_size : ℕ
pre_suf_prime_bit_size = 50

unfoldable pub bit_sizes : ℕ → List ℕ
bit_sizes level =
    pre_suf_prime_bit_size
    ∷ (replicate level intermediate_primes_bit_size ++ pre_suf_prime_bit_size ∷ [])

-- what the key generator of SEAL makes
pub record KeySet (Params PublicKey SecretKey RelinKeys : Type 0) : Type 0 where
  pub params : Params
  pub public_key : PublicKey
  pub secret_key : SecretKey
  pub relin_keys : RelinKeys

-- `map_.at(key_id).filename(kind)`, and the file, which is an error where it is missing
unfoldable pub key_file : (key_id : ℕ) → KeyKind → State → Result Bytes
unfolding find_key
key_file key_id kind s = do
  names ← or_throw out_of_range (find_key key_id s.map)
  name ← filename kind names
  or_throw file_error (read_file name s.files)

module _ {Params : Type 0} (params : Codec (Unit {0}) Params) where
  -- `get_param`
  unfoldable pub get_param : (key_id : ℕ) → State → Result Params
  unfolding key_file
  get_param key_id s = do
    bytes ← key_file key_id kind_param s
    (param, loaded) ← params.load tt bytes
    ok param

  -- `get`, of the public key, the secret key or the relinearization keys, whose codec has
  -- `unsafe_load` as its `load`
  unfoldable pub get : {A : Type 0} → Codec Params A → (key_id : ℕ) → KeyKind → State → Result A
  unfolding get_param key_file
  get codec key_id kind s = do
    bytes ← key_file key_id kind s
    param ← get_param key_id s
    (x, loaded) ← codec.load param bytes
    ok x

module _ {Params PublicKey SecretKey RelinKeys : Type 0} (params : Codec (Unit {0}) Params)
    (public_keys : Codec Params PublicKey) (secret_keys : Codec Params SecretKey)
    (relin_keys : Codec Params RelinKeys)
    (generate : ℕ → List ℕ → Result (KeySet Params PublicKey SecretKey RelinKeys)) where
  -- the four files, in the order in which they are written
  unfoldable pub save_keyfiles :
      KeySet Params PublicKey SecretKey RelinKeys → KeyFilenames → Files → Result Files
  save_keyfiles keys names files = do
    pk ← filename kind_pub_key names
    sk ← filename kind_sec_key names
    param ← filename kind_param names
    relin ← filename kind_relin_key names
    ok (
        write_file relin (relin_keys.save keys.relin_keys) (
          write_file param (params.save keys.params) (
            write_file sk (secret_keys.save keys.secret_key)
              (write_file pk (public_keys.save keys.public_key) files))))

  -- `generate_keyfiles`
  unfoldable pub generate_keyfiles : (power level : ℕ) → KeyFilenames → Files → Result Files
  unfolding save_keyfiles bit_sizes
  generate_keyfiles power level names files = do
    keys ← generate (2 ^ power) (bit_sizes level)
    save_keyfiles keys names files

  abbrev with_files : ℕ → State → Result Files → Result ℕ × State
  with_files key_id s (ok files) = (ok key_id, record s { files = files })
  with_files key_id s (err e) = (err e, s)

  -- `new_keys`, where `uuid` is the value of `gen_uuid`
  unfoldable pub new_keys : (uuid power level : ℕ) → State → Result ℕ × State
  unfolding generate_keyfiles emplace_key key_filenames
  new_keys uuid power level s =
      let map = emplace_key uuid (key_filenames uuid) s.map in
      with_files uuid (record s { map = map })
        (or_throw out_of_range (find_key uuid map) >>= λ names.
          generate_keyfiles power level names s.files)

-- `data_size`
unfoldable pub data_size : (key_id : ℕ) → KeyKind → State → Result ℕ
unfolding find_key
data_size key_id kind s = do
  names ← or_throw out_of_range (find_key key_id s.map)
  name ← filename kind names
  bytes ← or_throw file_error (read_file name s.files)
  ok (length bytes)

abbrev pub removed : Option Bytes → Filename → Files → Result (Unit {0}) × Files
removed none name files = (err file_error, files)
removed (some bytes) name files = (ok tt, delete_file name files)

abbrev pub remove_kind : Result Filename → Files → Result (Unit {0}) × Files
remove_kind (err e) files = (err e, files)
remove_kind (ok name) files = removed (read_file name files) name files

abbrev pub after_removal :
    Result (Unit {0}) × Files → (Files → Result (Unit {0}) × Files) → Result (Unit {0}) × Files
after_removal (ok done, files) next = next files
after_removal (err e, files) next = (err e, files)

-- the loop of `remove_keyfiles` over these kinds
unfoldable pub remove_kinds : List KeyKind → KeyFilenames → Files → Result (Unit {0}) × Files
remove_kinds [] names files = (ok tt, files)
remove_kinds (kind ∷ kinds) names files =
    after_removal (remove_kind (filename kind names) files)
      λ files'. remove_kinds kinds names files'

-- `remove_keyfiles`: from `kKindPubKey` to `kKindParam`
unfoldable pub remove_keyfiles : KeyFilenames → Files → Result (Unit {0}) × Files
unfolding remove_kinds
remove_keyfiles names files =
    remove_kinds
      (kind_pub_key ∷ (kind_sec_key ∷ (kind_galois_key ∷ (kind_relin_key ∷ (kind_param ∷ [])))))
      names files

abbrev pub erased : ℕ → State → Result (Unit {0}) × Files → Result (Unit {0}) × State
erased key_id s (ok done, files) = (ok tt, record { map = erase_key key_id s.map; files = files })
erased key_id s (err e, files) = (err e, record s { files = files })

abbrev pub delete_found : ℕ → State → Option KeyFilenames → Result (Unit {0}) × State
delete_found key_id s none = (err out_of_range, s)
delete_found key_id s (some names) = erased key_id s (remove_keyfiles names s.files)

-- `delete_keys`
unfoldable pub delete_keys : (key_id : ℕ) → State → Result (Unit {0}) × State
unfolding remove_keyfiles erase_key find_key
delete_keys key_id s = delete_found key_id s (find_key key_id s.map)
