-- ===== src/Samples/Texts.antt =====
-- Runs on texts: words, paths and configuration files.
use Prim.Native.Char.{code}
use Prim.Native.String.{String}
use pp_cnn.Prelude.{
  ◌≡◌, refl, true, false, none, some, [], ◌∷◌, ◌++◌, take, length, ok, err, file_error, Returns,
  ◌==◌,
}
use pp_cnn.Share.Utility.{
  Text, contains, split, split_from, find_first, basename, get_dirname, get_filename, get_extname,
}
use pp_cnn.Share.Utility.Search.{Lacks}
use pp_cnn.Share.Utility.Words.{words, split-words}
use pp_cnn.Share.Utility.Paths.{get_dirname-basename, get_filename-get_extname}
use pp_cnn.Share.Config.{config_get_value, get_lines, load_from_file, find_value}
use pp_cnn.Share.Config.Definitions.{defined, converted, load_from_file-defined}
use pp_cnn.Share.Config.Printed.{IsWord, print, load_from_file-print}

abbrev codes : String → Text
codes String.[] = []
codes (String.◌∷◌ c s) = code c ∷ codes s

split-words_example :
    split (codes " key = value") (codes " =")
    ≡ words (contains (codes " =")) [] (codes " key = value")
split-words_example = split-words (codes " key = value") (codes " =")

split_run : split (codes " key = value") (codes " =") ≡ codes "key" ∷ (codes "value" ∷ [])
unfolding split split_from find_first contains
split_run = refl

get_dirname-basename_example :
    (get_dirname (codes "a/b/c.dat") ++ basename (codes "a/b/c.dat") ≡ codes "a/b/c.dat")
    × Lacks (λ d. d == b'/') (basename (codes "a/b/c.dat"))
    × (get_filename (codes "a/b/c.dat") false ≡ basename (codes "a/b/c.dat"))
get_dirname-basename_example = get_dirname-basename (codes "a/b/c.dat")

-- The stem has five characters and the extension four: "mode" is what is returned.
get_filename-get_extname_example :
    (basename (codes "dir" ++ b'/' ∷ (codes "model" ++ b'.' ∷ codes "json"))
      ≡ codes "model" ++ b'.' ∷ codes "json")
    × (get_extname (codes "dir" ++ b'/' ∷ (codes "model" ++ b'.' ∷ codes "json")) ≡ codes "json")
    × (get_filename (codes "dir" ++ b'/' ∷ (codes "model" ++ b'.' ∷ codes "json")) true
        ≡ take (length (codes "json")) (codes "model" ++ b'.' ∷ codes "json"))
get_filename-get_extname_example =
    get_filename-get_extname (codes "dir") (codes "model") (codes "json")
      (refl, (refl, (refl, (refl, (refl, tt))))) (refl, (refl, (refl, (refl, tt))))
      (refl, (refl, (refl, (refl, tt))))

stem_cut : take (length (codes "json")) (codes "model" ++ b'.' ∷ codes "json") ≡ codes "mode"
stem_cut = refl

load_from_file-defined_example :
    Returns (load_from_file (some (codes "port = 8080 # the port")) []) (λ map.
      config_get_value ok (codes "port") map
      ≡ converted ok (defined (codes "port") (get_lines [] (codes "port = 8080 # the port"))))
    × (load_from_file none [] ≡ err file_error)
    × (load_from_file (some []) [] ≡ err file_error)
load_from_file-defined_example =
    load_from_file-defined ok (codes "port") b'p' (codes "ort = 8080 # the port")

port : IsWord (codes "port")
unfolding contains
port = record {
  c = b'p';
  s = codes "ort";
  nonempty = refl;
  whole = (refl, (refl, (refl, (refl, tt))));
  no_hash = (refl, (refl, (refl, (refl, tt))));
}

number : IsWord (codes "8080")
unfolding contains
number = record {
  c = b'8';
  s = codes "080";
  nonempty = refl;
  whole = (refl, (refl, (refl, (refl, tt))));
  no_hash = (refl, (refl, (refl, (refl, tt))));
}

load_from_file-print_example :
    Returns (load_from_file (some (print ((codes "port", codes "8080") ∷ []))) []) λ map.
      config_get_value ok (codes "port") map
      ≡ converted ok (find_value (codes "port") ((codes "port", codes "8080") ∷ []))
load_from_file-print_example =
    load_from_file-print ok (codes "port") (codes "port") (codes "8080") [] ((port, number), tt)
