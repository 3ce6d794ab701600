-- ===== src/Cnn/Network.antt =====
-- `Network` (ppcnn/ppcnn_server/cnn/network.cpp): the layers of a model, and `Network::predict`.
-- The class of a layer and its type agree by construction, so that no downcast fails. The virtual
-- `forward` that a class does not override does nothing (ppcnn/ppcnn_server/cnn/layer.cpp).
use pp_cnn.Prelude.{Bool, true, false, List, [], ◌∷◌, Result, ok, ◌>>=◌, if◌then◌else◌}
use pp_cnn.Seal.{Seal}
use pp_cnn.Cnn.Tensor.{Tensor}
use pp_cnn.Cnn.Conv2d.{Conv2d, conv2d_forward}
use pp_cnn.Cnn.Dense.{Dense, dense_forward}
use pp_cnn.Cnn.BatchNormalization.{
  BatchNormalization, batch_normalization_forward, batch_normalization_forward_units,
}
use pp_cnn.Cnn.Activation.{Activation, activation_forward, activation_forward_units}
use pp_cnn.Cnn.AveragePooling2d.{AveragePooling2d, average_pooling2d_forward}
use pp_cnn.Cnn.Flatten.{Flatten, flatten, global_average_pooling2d_flatten}

module _ (seal : Seal) where
  open seal use {Ciphertext}

  pub data Layer : Type 0 where
    -- also `Conv2DFusedBN`, which inherits `forward`
    conv2d : Conv2d seal → Layer
    average_pooling2d : AveragePooling2d seal → Layer
    batch_normalization : BatchNormalization seal → Layer
    flatten_layer : Flatten → Layer
    -- also `DenseFusedBN`, which inherits `forward`
    dense : Dense seal → Layer
    activation : Activation seal → Layer
    global_average_pooling2d : Flatten → Layer

  -- `encrypted_3d`, `encrypted_units` and `input_dim == 1`
  pub record Flow : Type 0 where
    pub encrypted_3d : Tensor Ciphertext
    pub encrypted_units : List Ciphertext
    pub is_flat : Bool

  abbrev pub with_3d : Flow → Result (Tensor Ciphertext) → Result Flow
  with_3d flow r = r >>= λ t. ok (record flow { encrypted_3d = t })

  abbrev pub with_units : Flow → Result (List Ciphertext) → Result Flow
  with_units flow r = r >>= λ us. ok (record flow { encrypted_units = us })

  abbrev pub flattened : Flow → Result (List Ciphertext) → Result Flow
  flattened flow r = r >>= λ us. ok (record flow { encrypted_units = us; is_flat = true })

  -- One round of the loop: the `switch` over the class of the layer.
  unfoldable pub forward_layer : Layer → Flow → Result Flow
  forward_layer (conv2d c) flow = with_3d flow (conv2d_forward seal c flow.encrypted_3d)
  forward_layer (average_pooling2d p) flow =
      with_3d flow (average_pooling2d_forward seal p flow.encrypted_3d)
  forward_layer (activation a) flow =
      if flow.is_flat
      then with_units flow (activation_forward_units seal a flow.encrypted_units)
      else with_3d flow (activation_forward seal a flow.encrypted_3d)
  forward_layer (batch_normalization b) flow =
      if flow.is_flat
      then with_units flow (batch_normalization_forward_units seal b flow.encrypted_units)
      else with_3d flow (batch_normalization_forward seal b flow.encrypted_3d)
  forward_layer (flatten_layer f) flow = flattened flow (flatten seal f flow.encrypted_3d)
  forward_layer (global_average_pooling2d g) flow =
      flattened flow (global_average_pooling2d_flatten seal g flow.encrypted_3d)
  forward_layer (dense d) flow = with_units flow (dense_forward seal d flow.encrypted_units)

  unfoldable pub forward_layers : List Layer → Flow → Result Flow
  forward_layers [] flow = ok flow
  forward_layers (l ∷ ls) flow = do flow' ← forward_layer l flow; forward_layers ls flow'

  -- `Network::predict`
  unfoldable pub predict : List Layer → Tensor Ciphertext → Result (List Ciphertext)
  predict layers encrypted_3d = do
    flow ←
        forward_layers layers
          (record { encrypted_3d = encrypted_3d; encrypted_units = []; is_flat = false })
    ok flow.encrypted_units
