-- ===== src/Samples/Keys.antt =====
-- Runs of the key container of the client, with numbers for the keys.
use pp_cnn.Prelude.{ℕ, ◌≡◌, refl, arith, none, List, [], ◌∷◌, Result, ok, err, out_of_range}
use pp_cnn.Client.KeyFiles.{
  kind_pub_key, kind_sec_key, kind_relin_key, kind_param, Files, read_file, same_file,
  key_filenames,
}
use pp_cnn.Client.KeyContainer.{State, find_key, KeySet, new_keys, get, get_param, delete_keys}
use pp_cnn.Client.KeyContainer.Generated.{Named, Matching, new_keys-get}
use pp_cnn.Client.KeyContainer.Deleted.{file, delete_keys_throws}
use pp_cnn.Samples.Wires.{codec_word}

abbrev number_keys : KeySet ℕ ℕ ℕ ℕ
number_keys = record { params = 1; public_key = 2; secret_key = 3; relin_keys = 4 }

abbrev generate_numbers : ℕ → List ℕ → Result (KeySet ℕ ℕ ℕ ℕ)
generate_numbers poly_mod_degree bits = ok number_keys

number_keys-Matching :
    Matching codec_word codec_word codec_word codec_word generate_numbers number_keys
number_keys-Matching = record {
  params_valid = omega arith;
  public_valid = omega arith;
  secret_valid = omega arith;
  relin_valid = omega arith;
}

-- Keys of the identifier are there already, and are replaced.
abbrev old_files : Files
old_files =
    (file kind_pub_key 7, 9 ∷ [])
    ∷ ((file kind_sec_key 7, 8 ∷ [])
        ∷ ((file kind_relin_key 7, 7 ∷ []) ∷ ((file kind_param 7, 6 ∷ []) ∷ [])))

abbrev old_keys : State
old_keys = record { map = (7, key_filenames 7) ∷ []; files = old_files }

new_keys-get_example :
    (s' : State) × (new_keys codec_word codec_word codec_word codec_word generate_numbers 7 13 9
        old_keys
      ≡ (ok 7, s'))
    × Named s'.map
    × (get codec_word codec_word 7 kind_pub_key s' ≡ ok 2)
    × (get codec_word codec_word 7 kind_sec_key s' ≡ ok 3)
    × (get codec_word codec_word 7 kind_relin_key s' ≡ ok 4)
    × (get_param codec_word 7 s' ≡ ok 1)
new_keys-get_example =
    new_keys-get codec_word codec_word codec_word codec_word generate_numbers 7 13 9 old_keys
      number_keys (refl, tt) refl number_keys-Matching

delete_keys_throws_example :
    (s' : State) × (delete_keys 7 old_keys ≡ (err out_of_range, s'))
    × (s'.map ≡ old_keys.map)
    × (read_file (file kind_pub_key 7) s'.files ≡ none)
    × (read_file (file kind_sec_key 7) s'.files ≡ none)
    × (read_file (file kind_relin_key 7) s'.files
        ≡ read_file (file kind_relin_key 7) old_keys.files)
    × (read_file (file kind_param 7) s'.files ≡ read_file (file kind_param 7) old_keys.files)
unfolding find_key read_file same_file
delete_keys_throws_example = delete_keys_throws 7 old_keys (9 ∷ []) (8 ∷ []) refl refl refl
