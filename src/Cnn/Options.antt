-- ===== src/Cnn/Options.antt =====
-- `OptOption` (ppcnn/ppcnn_share/cnn_utils/opt_option.hpp and opt_option.cpp) and the enumerations of
-- types.h. The references to the keys, the evaluator and the encoder are the interface to SEAL.
use pp_cnn.Prelude.{ℕ, Bool, true, false}
use pp_cnn.Seal.{Seal}

-- `INTERMEDIATE_PRIMES_BIT_SIZE` of define.h
abbrev pub intermediate_primes_bit_size : ℕ
intermediate_primes_bit_size = 30

pub data OptLevel : Type 0 where
  no_opt fuse_layers opt_activation opt_pooling all_opt : OptLevel
  -- any other number that the client sends
  other_level : ℕ → OptLevel

-- `EActivation`
pub data ActivationOption : Type 0 where
  default_activation square_option swish_rg4_deg4 swish_rg6_deg4 mish_rg4_deg4 mish_rg6_deg4 :
      ActivationOption

module _ (seal : Seal) where
  open seal use {Float, Scale, pow2}

  pub record OptOption : Type 0 where
    pub enable_fuse_layers : Bool
    pub enable_optimize_activation : Bool
    pub enable_optimize_pooling : Bool
    pub should_multiply_coeff : Bool
    pub should_multiply_pool : Bool
    pub activation : ActivationOption
    pub highest_deg_coeff : Float
    pub current_pooling_mul_factor : Float
    pub consumed_level : ℕ

  -- `scale_param = pow(2.0, INTERMEDIATE_PRIMES_BIT_SIZE)`, which nothing changes afterwards
  abbrev pub scale_param : Scale
  scale_param = pow2 intermediate_primes_bit_size

  option_with : Bool → Bool → Bool → ActivationOption → Float → OptOption
  option_with fuse act pool activation zero_float = record {
    enable_fuse_layers = fuse;
    enable_optimize_activation = act;
    enable_optimize_pooling = pool;
    should_multiply_coeff = false;
    should_multiply_pool = false;
    activation = activation;
    highest_deg_coeff = zero_float;
    current_pooling_mul_factor = zero_float;
    consumed_level = 0;
  }

  -- `OptOption::OptOption`; `zero_float` is `0.0f`.
  unfoldable pub opt_option : OptLevel → ActivationOption → Float → OptOption
  unfolding option_with
  opt_option fuse_layers a z = option_with true false false a z
  opt_option opt_activation a z = option_with false true false a z
  opt_option opt_pooling a z = option_with false false true a z
  opt_option all_opt a z = option_with true true true a z
  opt_option no_opt a z = option_with false false false a z
  opt_option (other_level n) a z = option_with false false false a z
