-- ===== src/Server/CalcThread.antt =====
-- What a calculation thread does with one query (ppcnn/ppcnn_server/ppcnn_server_calcthread.cpp):
-- `compute`, and the rest of the loop of `exec`. The files are parameters; the clock is the time that
-- the result is given.
use pp_cnn.Prelude.{
  ℕ, ◌+◌, ◌*◌, Bool, true, ◌||◌, not, Option, none, some, List, length, get_elem?, Result, ok, err,
  ◌>>=◌, out_of_range, file_error, leb, if◌then◌else◌,
}
use pp_cnn.Seal.{Seal}
use pp_cnn.Cnn.Floats.{FloatOps, zero_float}
use pp_cnn.Cnn.Geometry.{Axis}
use pp_cnn.Cnn.Tensor.{Tensor, fill}
use pp_cnn.Cnn.Options.{OptLevel, ActivationOption, OptOption, opt_option}
use pp_cnn.Cnn.Activation.{is_rg4_option, is_rg6_option}
use pp_cnn.Cnn.Network.{predict}
use pp_cnn.Cnn.Build.{LayerInfo, WeightsFile, NextLayer}
use pp_cnn.Cnn.Build.Fused.{build_network}
use pp_cnn.Server.MapQueue.{push}
use pp_cnn.Server.CalcManager.{Query, CalcResult}

-- `ComputationParams` (ppcnn/ppcnn_share/ppcnn_computation_params.hpp); of the name of the model, whether
-- it contains "CKKS-swish_rg4_deg4" or "CKKS-swish_rg6_deg4".
pub record ComputationParams : Type 0 where
  pub img_width : ℕ
  pub img_height : ℕ
  pub img_channels : ℕ
  pub labels : ℕ
  pub names_rg4 : Bool
  pub names_rg6 : Bool
  pub opt_level : OptLevel
  pub activation : ActivationOption

-- The files of a model: whether they exist, and what they hold.
pub record ModelFiles (Float : Type 0) : Type 0 where
  pub structure_exists : Bool
  pub weights_exist : Bool
  pub layers : Result (List LayerInfo)
  pub weights : WeightsFile Float

module _ (seal : Seal) where
  open seal use {Ciphertext, blank}

  abbrev or_blank : Option Ciphertext → Ciphertext
  or_blank none = blank
  or_blank (some x) = x

  -- `memcpy` of the ciphertexts into the tensor, in the order of its memory. The copy shares its memory
  -- with the query; here it is a copy of the values, and what the destructors do is left out.
  unfoldable pub unpack_images :
      (rows cols channels : ℕ) → List Ciphertext → Result (Tensor Ciphertext)
  unpack_images rows cols channels ctxts =
      if leb (length ctxts) (rows * cols * channels)
      then (fill rows cols channels
          λ h w c. ok (or_blank (get_elem? ctxts (h * cols * channels + w * channels + c))))
      else err out_of_range

module _ (seal : Seal) (ops : FloatOps seal.Float) (uninit : Axis)
    (blank_plaintext : seal.Plaintext) where
  open seal use {Float, Ciphertext}
  open ops use {literal}

  -- `SWISH_RG4_DEG4_COEFFS.front()` and `SWISH_RG6_DEG4_COEFFS.front()`
  unfoldable pub with_highest_deg_coeff : ComputationParams → OptOption seal → OptOption seal
  with_highest_deg_coeff params option =
      if option.enable_optimize_activation
      then if params.names_rg4 || is_rg4_option params.activation
        then record option { highest_deg_coeff = literal true 5075 6 }
        else if params.names_rg6 || is_rg6_option params.activation
        then record option { highest_deg_coeff = literal true 2012 6 }
        else option
      else option

  -- `compute`, which starts from the global variables that the network before left
  unfoldable pub compute :
      ModelFiles Float
      → ComputationParams
      → List Ciphertext
      → NextLayer
      → Result (List Ciphertext × NextLayer)
  compute files params ctxts next = do
    infos ← files.layers
    (layers, option, next') ←
        build_network seal ops files.weights uninit blank_plaintext infos
          (with_highest_deg_coeff params
            (opt_option seal params.opt_level params.activation (zero_float ops)))
          next
    images ← unpack_images seal params.img_height params.img_width params.img_channels ctxts
    units ← predict seal layers images
    ok (units, next')

  -- The loop of `exec`, from the query to its result; what throws here is not caught.
  unfoldable pub exec_round :
      {Keys : Type 0}
      → ModelFiles Float
      → ℕ
      → ℕ
      → Query Ciphertext Keys ComputationParams
      → NextLayer
      → Result (CalcResult Ciphertext × NextLayer)
  exec_round files now query_id query next =
      if not files.structure_exists || not files.weights_exist then err file_error else do
        (units, next') ← compute files query.params query.ctxts next
        ok (
          record {
            key_id = query.key_id;
            query_id = query_id;
            status = true;
            ctxts = units;
            created_time = now;
          },
          next',
        )

  -- And the push of the result, while no other thread touches the results.
  unfoldable pub exec_query :
      {Keys : Type 0}
      → ModelFiles Float
      → ℕ
      → ℕ
      → Query Ciphertext Keys ComputationParams
      → NextLayer
      → List (ℕ × CalcResult Ciphertext)
      → Result (List (ℕ × CalcResult Ciphertext) × NextLayer)
  exec_query files now query_id query next rque = do
    (result, next') ← exec_round files now query_id query next
    rque' ← push query_id result rque
    ok (rque', next')
