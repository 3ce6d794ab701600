-- ===== src/Samples/Systems.antt =====
-- Runs of the server: two callbacks at one time, and a query of an image of two pixels.
use pp_cnn.Prelude.{
  ℕ, ◌+◌, ◌≡◌, refl, true, false, none, some, [], ◌∷◌, ok, for_range, index, tabulate_from,
  tabulate,
}
use pp_cnn.Samples.Ideal.{Slot, slot, ideal, unassigned}
use pp_cnn.Samples.Models.{whole_floats, no_axis}
use pp_cnn.Samples.Normalizations.{trained_file, one_channel}
use pp_cnn.Cnn.Options.{no_opt, default_activation, opt_option}
use pp_cnn.Server.MapQueue.{get, lookup, emplace}
use pp_cnn.Server.CalcManager.{Query, CalcResult, Manager, manager_new, queries_free, results_free}
use pp_cnn.Server.System.{
  System, started, Reachable, start, step, test_queries, test_results, count, insert,
}
use pp_cnn.Server.System.Bounds.{Bounded, Reachable-Bounded}
use pp_cnn.Server.System.Progress.{Run}
use pp_cnn.Server.System.Execution.{Computed, answer_all, Reachable-Run}
use pp_cnn.Server.CalcThread.{
  ComputationParams, ModelFiles, unpack_images, with_highest_deg_coeff, compute, exec_round,
}
use pp_cnn.Cnn.Tensor.{at, fill}
use pp_cnn.Cnn.Network.{forward_layer, forward_layers, predict}
use pp_cnn.Cnn.Flatten.{assign, flatten_cell, flatten}
use pp_cnn.Cnn.Build.{LayerInfo, NextLayer, flatten_class}
use pp_cnn.Cnn.Build.Layers.{build_flatten}
use pp_cnn.Cnn.Build.Fused.{build_layer, build_unfused, build_network}

-- A thread adds one to its query.
abbrev AddsOne : ℕ → ℕ → ℕ → ℕ → ℕ → Type 0
AddsOne g id q r g' = (r ≡ q + 1) × (g' ≡ g)

-- Two callbacks pass the tests of a queue of one place before one of them inserts its query.
abbrev two_queries : System ℕ ℕ ℕ
two_queries = record (started 1 2 60 2 1 0) {
  manager = record (manager_new 1 2 60) { qque = (5, 50) ∷ (6, 60) ∷ [] };
}

two_queries-Reachable : Reachable AddsOne 1 2 60 2 1 0 two_queries
unfolding manager_new queries_free results_free lookup emplace
two_queries-Reachable =
    step
      (step
        (step
          (step
            (step
              (step (step (step start (test_queries 50 1 refl refl)) (test_queries 60 0 refl refl))
                (test_results 50 (60 ∷ []) [] refl refl))
              (test_results 60 [] [] refl refl))
            (count 5 50 (60 ∷ []) [] refl refl))
          (count 6 60 [] [] refl refl))
        (insert 5 50 ((6, 60) ∷ []) [] refl))
      (insert 6 60 [] [] refl)

Reachable-Bounded_example : Bounded 1 2 2 1 two_queries
Reachable-Bounded_example = Reachable-Bounded AddsOne 1 2 60 2 1 0 two_queries two_queries-Reachable

abbrev one_query : Manager ℕ ℕ
one_query = record (manager_new 1 2 60) { qque = (5, 50) ∷ [] }

abbrev flatten_info : LayerInfo
flatten_info = record {
  class_name = some flatten_class;
  name = some 1;
  batch_input_shape = none;
  filters = none;
  kernel_size = none;
  pool_size = none;
  strides = none;
  padding = none;
  activation = none;
  units = none;
}

-- The model is one flattening of an image of one row of two pixels.
abbrev pair_params : ComputationParams
pair_params = record {
  img_width = 2;
  img_height = 1;
  img_channels = 1;
  labels = 2;
  names_rg4 = false;
  names_rg6 = false;
  opt_level = no_opt;
  activation = default_activation;
}

abbrev Asked : Type 0
Asked = Query Slot ℕ ComputationParams

abbrev pair_files : Asked → ModelFiles ℕ
pair_files q = record {
  structure_exists = true;
  weights_exist = true;
  layers = ok (flatten_info ∷ []);
  weights = trained_file;
}

abbrev pair_query : Asked
pair_query = record {
  key_id = 3;
  params = pair_params;
  ctxts = slot 0 1 ∷ slot 0 2 ∷ [];
  enc_keys = 9;
}

abbrev pair_result : CalcResult Slot
pair_result = record {
  key_id = 3;
  query_id = 5;
  status = true;
  ctxts = slot 0 1 ∷ slot 0 2 ∷ [];
  created_time = 100;
}

abbrev noon : ℕ → Asked → ℕ
noon id q = 100

abbrev Runs : NextLayer → ℕ → Asked → CalcResult Slot → NextLayer → Type 0
Runs = Computed ideal whole_floats no_axis unassigned ℕ pair_files noon

abbrev one_image : System Asked (CalcResult Slot) NextLayer
one_image = record (started 1 2 60 1 1 one_channel) {
  manager = record (manager_new 1 2 60) { qque = (5, pair_query) ∷ [] };
}

one_image-Reachable : Reachable Runs 1 2 60 1 1 one_channel one_image
unfolding manager_new queries_free results_free lookup emplace
one_image-Reachable =
    step
      (step
        (step (step start (test_queries pair_query 0 refl refl))
          (test_results pair_query [] [] refl refl))
        (count 5 pair_query [] [] refl refl))
      (insert 5 pair_query [] [] refl)

abbrev two_units : NextLayer
two_units = record one_channel { in_units = 2 }

one_image_answered :
    answer_all ideal whole_floats no_axis unassigned ℕ pair_files noon one_image.manager.qque
      one_channel
    ≡ ok ((5, pair_result) ∷ [], two_units)
unfolding answer_all exec_round compute with_highest_deg_coeff opt_option build_network
    build_unfused build_layer build_flatten unpack_images fill tabulate tabulate_from predict
    forward_layers forward_layer flatten flatten_cell assign at index for_range manager_new
one_image_answered = refl

Reachable-Run_example :
    (t : System Asked (CalcResult Slot) NextLayer) × Run Runs one_image ((5, pair_result) ∷ []) t
    × (t.manager.qque ≡ [])
    × (t.manager.rque ≡ [])
    × (t.waiting ≡ 1)
    × (t.running ≡ [])
    × (t.shared ≡ two_units)
unfolding manager_new get lookup
Reachable-Run_example =
    Reachable-Run ideal whole_floats no_axis unassigned ℕ pair_files noon 1 2 60 1 1 one_channel
      two_units one_image 0 ((5, pair_result) ∷ []) one_image-Reachable refl (refl, tt)
      one_image_answered
