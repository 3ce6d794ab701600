-- ===== src/Samples/Messages.antt =====
-- Runs of the messages between the client and the server, and of the files.
use pp_cnn.Prelude.{
  ℕ, zero, suc, ◌<◌, ◌≡◌, refl, arith, file_error, true, none, some, List, [], ◌∷◌, ok, err, ◌>>=◌,
}
use pp_cnn.Share.Streams.{Bytes, word_bytes}
use pp_cnn.Share.EncData
use pp_cnn.Share.Messages.{EncryptionKeys}
use pp_cnn.Server.MapQueue.{lookup, pop_key, erase, push}
use pp_cnn.Server.CalcManager.{queries_free, results_free, push_query, try_pop_result}
use pp_cnn.Server.KeyContainer.{register_keys, find_keys, get_keys}
use pp_cnn.Server.Callbacks.{
  ServerManager, on_encryption_keys, on_query, on_result_request, result_message, calc_result,
}
use pp_cnn.Client.Requests.{
  register_enckeys, enckey_message, query_message, send_query, recv_query_id, request_results,
  result_thread,
}
use pp_cnn.Client.Exchange.Keys.{register_enckeys-on_encryption_keys}
use pp_cnn.Client.Exchange.Query.{query_of, send_query-on_query}
use pp_cnn.Client.Exchange.Results.{succeeded, request_results-result_thread}
use pp_cnn.Samples.Wires.{word_wire, codec_word}

abbrev some_keys : EncryptionKeys word_wire
some_keys = record { params = 5; pubkey = 6; relinkey = 7 }

abbrev some_keymap : List (ℕ × EncryptionKeys word_wire)
some_keymap = (3, some_keys) ∷ []

register_enckeys-on_encryption_keys_example :
    (register_enckeys word_wire 5 3 6 7 >>= λ buffer. on_encryption_keys word_wire buffer [])
    ≡ ok (register_keys 3 (record { params = 5; pubkey = 6; relinkey = 7 }) [])
unfolding enckey_message word_bytes
register_enckeys-on_encryption_keys_example =
    register_enckeys-on_encryption_keys word_wire 5 3 6 7 [] (omega arith) (omega arith)
      (omega arith) (omega arith)

abbrev empty_manager : ServerManager word_wire
empty_manager = record {
  max_concurrent_queries = 2;
  max_results = 2;
  result_lifetime_sec = 60;
  qque = [];
  rque = [];
}

send_query-on_query_example :
    (do
      buffer ← send_query word_wire 3 9 (11 ∷ 12 ∷ [])
      (m', rbuffer) ← on_query word_wire 77 buffer some_keymap empty_manager
      id ← recv_query_id word_wire rbuffer
      ok (id, m'))
    ≡ ok (push_query 77 (query_of word_wire 3 9 (11 ∷ 12 ∷ []) some_keys) empty_manager)
unfolding queries_free results_free query_message word_bytes push_query push lookup find_keys
    get_keys EncData.save EncData.save_each
send_query-on_query_example =
    send_query-on_query word_wire 3 9 11 (12 ∷ []) some_keys 77 some_keymap empty_manager
      (omega arith) (omega arith) refl (omega arith) (omega arith)

abbrev result_of_8 : ServerManager word_wire
result_of_8 = record empty_manager { rque = (8, succeeded 3 8 (21 ∷ 22 ∷ []) 0) ∷ [] }

-- The result is there in the second round.
abbrev second_round : ℕ → ServerManager word_wire
second_round zero = empty_manager
second_round (suc k) = result_of_8

not_in_first_round : (j : ℕ) → j < 1 → try_pop_result 8 (second_round j) ≡ none
unfolding try_pop_result pop_key lookup
not_in_first_round zero h = refl
not_in_first_round (suc j) h = absurd (omega arith)

request_results-result_thread_example :
    (rbuffer : Bytes) × ((request_results word_wire 8 >>= λ buffer.
    on_result_request word_wire 5 second_round buffer some_keymap)
      ≡ ok (some (empty_manager, rbuffer)))
    × (result_thread word_wire 5 rbuffer ≡ ok (true, 21 ∷ 22 ∷ []))
unfolding result_message calc_result word_bytes find_keys get_keys EncData.save EncData.save_each
    try_pop_result pop_key lookup erase
request_results-result_thread_example =
    request_results-result_thread word_wire 8 1 5 second_round empty_manager some_keys some_keymap 5
      3 0 21 (22 ∷ []) (omega arith) (omega arith) (omega arith) (omega arith) refl (omega arith)
      not_in_first_round refl

abbrev two_words : List ℕ
two_words = 40 ∷ 50 ∷ []

load_from_file-save_to_file_example :
    (EncData.load_from_file {Context = ℕ} codec_word 0
        (EncData.save_to_file {Context = ℕ} codec_word two_words)
      ≡ ok two_words)
    × (EncData.load_from_file {Context = ℕ} codec_word 0 none ≡ err file_error)
load_from_file-save_to_file_example =
    EncData.load_from_file-save_to_file {Context = ℕ} codec_word 0 two_words (omega arith)
      (omega arith)
