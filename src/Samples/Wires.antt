-- ===== src/Samples/Wires.antt =====
-- A concrete representation of the structs and of the values of SEAL, in words of eight bytes, and
-- runs of the messages between the client and the server.
use pp_cnn.Prelude.{
  ℕ, zero, suc, ◌+◌, ◌^◌, ◌<◌, ◌≡◌, refl, sym, ap, ◌∙◌, Option, none, some, ◌++◌, arith, length,
  take, drop, replicate, Result, ok, ◌>>=◌, length-append,
}
use pp_cnn.Share.Streams.{Bytes, word_bytes, word_value, read_bytes, Raw, Codec}
use pp_cnn.Share.Streams.Words.{
  length-word_bytes, word_value-word_bytes, read_bytes-append, take-append, drop-append,
}
use pp_cnn.Share.Messages.{
  Wire, C2SEnckeyParam, C2SQueryParam, C2SResreqParam, Srv2CliParam, ServerCalcResult, result_nil,
  result_success, result_failed,
}

abbrev pub raw_word : Raw ℕ
raw_word = record {
  width = 8;
  bytes = word_bytes 8;
  value = word_value;
  Fits = λ x. x < 256 ^ 8;
  length-bytes = length-word_bytes 8;
  value-bytes = word_value-word_bytes 8;
}

module _ {A B : Type 0} (a : Raw A) (b : Raw B) where
  abbrev pair_bytes : A × B → Bytes
  pair_bytes (x, y) = a.bytes x ++ b.bytes y

  abbrev pair_value : Bytes → A × B
  pair_value s = (a.value (take a.width s), b.value (drop a.width s))

  pub length-pair_bytes : (p : A × B) → length (pair_bytes p) ≡ a.width + b.width
  length-pair_bytes (x, y) =
      omega (arith, length-append (a.bytes x) (b.bytes y), a.length-bytes x, b.length-bytes y)

  pub pair_value-pair_bytes : (p : A × B) → a.Fits p.0 × b.Fits p.1 → pair_value (pair_bytes p) ≡ p
  pair_value-pair_bytes (x, y) h =
      let front : take a.width (a.bytes x ++ b.bytes y) ≡ a.bytes x =
        ap (λ n. take n (a.bytes x ++ b.bytes y)) (sym (a.length-bytes x))
        ∙ take-append (a.bytes x) (b.bytes y) in
      let back : drop a.width (a.bytes x ++ b.bytes y) ≡ b.bytes y =
        ap (λ n. drop n (a.bytes x ++ b.bytes y)) (sym (a.length-bytes x))
        ∙ drop-append (a.bytes x) (b.bytes y) in
      rw (front, back, a.value-bytes x h.0, b.value-bytes y h.1) refl

  abbrev raw_pair : Raw (A × B)
  raw_pair = record {
    width = a.width + b.width;
    bytes = pair_bytes;
    value = pair_value;
    Fits = λ p. a.Fits p.0 × b.Fits p.1;
    length-bytes = length-pair_bytes;
    value-bytes = pair_value-pair_bytes;
  }

-- A type whose values are told apart by those of another.
pub raw_retract_lem :
    {A B : Type 0} (f : A → B) (g : B → A) (h : (x : A) → g (f x) ≡ x) (b : Raw B) (x : A)
    → b.Fits (f x)
    → g (b.value (b.bytes (f x))) ≡ x
raw_retract_lem f g h b x p = ap g (b.value-bytes (f x) p) ∙ h x

abbrev raw_retract :
    {A B : Type 0} (f : A → B) (g : B → A) → ((x : A) → g (f x) ≡ x) → Raw B → Raw A
raw_retract f g h b = record {
  width = b.width;
  bytes = λ x. b.bytes (f x);
  value = λ s. g (b.value s);
  Fits = λ x. b.Fits (f x);
  length-bytes = λ x. b.length-bytes (f x);
  value-bytes = raw_retract_lem f g h b;
}

-- a value of SEAL, saved as one word, in any context
abbrev load_word : {Context : Type 0} → Context → Bytes → Result (ℕ × ℕ)
load_word context s = read_bytes 8 s >>= λ r. ok (word_value r.0, 8)

pub load_word-word_bytes :
    {Context : Type 0} (context : Context) (x : ℕ) (rest : Bytes)
    → x < 256 ^ 8
    → load_word context (word_bytes 8 x ++ rest) ≡ ok (x, length (word_bytes 8 x))
load_word-word_bytes context x rest h =
    let front : read_bytes 8 (word_bytes 8 x ++ rest) ≡ ok (word_bytes 8 x, rest) =
      ap (λ n. read_bytes n (word_bytes 8 x ++ rest)) (sym (length-word_bytes 8 x))
      ∙ read_bytes-append (word_bytes 8 x) rest in
    rw (front, word_value-word_bytes 8 x h) (ap (λ n. ok (x, n)) (sym (length-word_bytes 8 x)))

abbrev pub codec_word : {Context : Type 0} → Codec Context ℕ
codec_word = record {
  save = word_bytes 8;
  load = load_word;
  IsValidFor = λ context x. x < 256 ^ 8;
  load-save = load_word-word_bytes;
}

abbrev enckey_words : C2SEnckeyParam → ℕ × (ℕ × (ℕ × ℕ))
enckey_words p = (p.key_id, (p.enc_params_stream_sz, (p.pubkey_stream_sz, p.relinkey_stream_sz)))

abbrev words_enckey : ℕ × (ℕ × (ℕ × ℕ)) → C2SEnckeyParam
words_enckey (a, (b, (c, d))) = record {
  key_id = a;
  enc_params_stream_sz = b;
  pubkey_stream_sz = c;
  relinkey_stream_sz = d;
}

abbrev query_words : C2SQueryParam ℕ → ℕ × (ℕ × ℕ)
query_words p = (p.comp_params, (p.enc_inputs_stream_sz, p.key_id))

abbrev words_query : ℕ × (ℕ × ℕ) → C2SQueryParam ℕ
words_query (a, (b, c)) = record { comp_params = a; enc_inputs_stream_sz = b; key_id = c }

abbrev calc_result_word : ServerCalcResult → ℕ
calc_result_word result_nil = 255
calc_result_word result_success = 0
calc_result_word result_failed = 1

abbrev word_calc_result : ℕ → ServerCalcResult
word_calc_result zero = result_success
word_calc_result (suc zero) = result_failed
word_calc_result (suc (suc n)) = result_nil

word_calc_result-calc_result_word :
    (r : ServerCalcResult) → word_calc_result (calc_result_word r) ≡ r
word_calc_result-calc_result_word result_nil = refl
word_calc_result-calc_result_word result_success = refl
word_calc_result-calc_result_word result_failed = refl

abbrev result_words : Srv2CliParam → ℕ × ℕ
result_words p = (calc_result_word p.result, p.enc_results_stream_sz)

abbrev words_result : ℕ × ℕ → Srv2CliParam
words_result (a, b) = record { result = word_calc_result a; enc_results_stream_sz = b }

pub words_result-result_words : (p : Srv2CliParam) → words_result (result_words p) ≡ p
words_result-result_words p =
    ap (λ r. record { result = r; enc_results_stream_sz = p.enc_results_stream_sz })
      (word_calc_result-calc_result_word p.result)

abbrev id_word : Option ℕ → ℕ
id_word none = 0
id_word (some n) = suc n

abbrev word_id : ℕ → Option ℕ
word_id zero = none
word_id (suc n) = some n

pub word_id-id_word : (id : Option ℕ) → word_id (id_word id) ≡ id
word_id-id_word none = refl
word_id-id_word (some n) = refl

pub length-replicate : (n : ℕ) → length {A = ℕ} (replicate n 0) ≡ n
length-replicate zero = refl
length-replicate (suc n) = ap suc (length-replicate n)

-- Every type of SEAL is a number, and so are the parameters of the computation.
abbrev pub word_wire : Wire
word_wire = record {
  Params = ℕ;
  PublicKey = ℕ;
  RelinKeys = ℕ;
  Ciphertext = ℕ;
  ComputationParams = ℕ;
  params = codec_word;
  public_key = codec_word;
  relin_keys = codec_word;
  ciphertext = codec_word;
  enckey_param =
      raw_retract enckey_words words_enckey (λ p. refl)
        (raw_pair raw_word (raw_pair raw_word (raw_pair raw_word raw_word)));
  query_param =
      raw_retract query_words words_query (λ p. refl)
        (raw_pair raw_word (raw_pair raw_word raw_word));
  resreq_param =
      raw_retract (λ (p : C2SResreqParam). p.query_id) (λ n. record { query_id = n }) (λ p. refl)
        raw_word;
  result_param =
      raw_retract result_words words_result words_result-result_words (raw_pair raw_word raw_word);
  query_id = raw_retract id_word word_id word_id-id_word raw_word;
  blank = λ n. replicate n 0;
  length-blank = length-replicate;
}
