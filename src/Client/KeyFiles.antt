-- ===== src/Client/KeyFiles.antt =====
-- The files of the keys of a client, and `KeyFilenames`
-- (ppcnn/ppcnn_client/ppcnn_client_keycontainer.cpp). A file name stands for its prefix and the number
-- after it.
use pp_cnn.Prelude.{
  ℕ, Bool, ◌&&◌, Option, none, some, List, [], ◌∷◌, Result, err, out_of_range, invalid_param, ◌==◌,
  ltb, if◌then◌else◌, or_throw,
}
use pp_cnn.Share.Streams.{Bytes}

-- `KeyKind_t`
pub data KeyKind : Type 0 where
  kind_unknown kind_pub_key kind_sec_key kind_galois_key kind_relin_key kind_param : KeyKind
  num_of_kind : KeyKind

-- its value, plus one
abbrev pub code : KeyKind → ℕ
code kind_unknown = 0
code kind_pub_key = 1
code kind_sec_key = 2
code kind_galois_key = 3
code kind_relin_key = 4
code kind_param = 5
code num_of_kind = 6

-- "pubkey_", "seckey_", "relinkey_" or "param_", given by the kind, and the key identifier
pub record Filename : Type 0 where
  pub prefix : KeyKind
  pub key_id : ℕ

unfoldable pub same_file : Filename → Filename → Bool
same_file a b = code a.prefix == code b.prefix && a.key_id == b.key_id

-- the files of the working directory
abbrev pub Files : Type 0
Files = List (Filename × Bytes)

unfoldable pub read_file : Filename → Files → Option Bytes
unfolding same_file
read_file name [] = none
read_file name ((n, bytes) ∷ files) = if same_file name n then some bytes else read_file name files

-- `std::ofstream` and `save`
abbrev pub write_file : Filename → Bytes → Files → Files
write_file name bytes files = (name, bytes) ∷ files

unfoldable pub delete_file : Filename → Files → Files
unfolding same_file
delete_file name [] = []
delete_file name ((n, bytes) ∷ files) =
    let rest = delete_file name files in if same_file name n then rest else (n, bytes) ∷ rest

-- `KeyFilenames`
abbrev pub KeyFilenames : Type 0
KeyFilenames = List (KeyKind × Filename)

unfoldable pub key_filenames : ℕ → KeyFilenames
key_filenames id =
    (kind_pub_key, record { prefix = kind_pub_key; key_id = id })
    ∷ ((kind_sec_key, record { prefix = kind_sec_key; key_id = id })
        ∷ ((kind_relin_key, record { prefix = kind_relin_key; key_id = id })
            ∷ ((kind_param, record { prefix = kind_param; key_id = id }) ∷ [])))

unfoldable pub find_filename : KeyKind → KeyFilenames → Option Filename
find_filename kind [] = none
find_filename kind ((k, name) ∷ names) =
    if code kind == code k then some name else find_filename kind names

-- `KeyFilenames::filename`, with `CHECK_KIND`
unfoldable pub filename : KeyKind → KeyFilenames → Result Filename
unfolding find_filename
filename kind names =
    if ltb (code kind) (code num_of_kind)
    then or_throw out_of_range (find_filename kind names)
    else err invalid_param
