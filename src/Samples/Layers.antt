-- ===== src/Samples/Layers.antt =====
-- Runs of the layers on small inputs, over the ideal implementation of SEAL.
use pp_cnn.Prelude.{
  ℕ, ◌+◌, ◌*◌, ◌-◌, ◌/◌, ◌≡◌, ◌≢◌, not, ◌&&◌, refl, arith, [], ◌∷◌, Returns, Each-Filled,
}
use pp_cnn.Seal.{Holds}
use pp_cnn.Samples.Ideal.{Slot, slot, ideal}
use pp_cnn.Cnn.Geometry.{Axis, same, axis_fields, target_start, pad_along, ceil_div}
use pp_cnn.Cnn.Geometry.Shape.{
  IsMeasured, pad_along_lem, axis_fields-Reached, axis_fields-FitsInt, Reached,
}
use pp_cnn.Cnn.Geometry.Narrow.{narrow-target_start}
use pp_cnn.Cnn.Tensor.{Tensor, Cells}
use pp_cnn.Cnn.Geometry.Reach.{covers, is_out_of_range_input-covers}
use pp_cnn.Cnn.Geometry.{is_out_of_range_input, target_at}
use pp_cnn.Cnn.Conv2d.{Conv2d, conv2d_forward}
use pp_cnn.Cnn.Conv2d.Convolution.{Conv2dInput, convolution}
use pp_cnn.Cnn.Conv2d.Forward.{conv2d_forward-convolution}

no_axis : Axis
no_axis = record { size = 0; window = 0; stride = 0; out = 0; pad_before = 0; pad_after = 0 }

two-IsMeasured : IsMeasured 2 2 1
two-IsMeasured = record {
  sized = record { stride_pos = omega arith; window_pos = omega arith; small = omega arith };
  size_exact = omega arith;
  stride_exact = omega arith;
}

-- One row of two pixels in one channel, under padding "same" with a window of one by two.
abbrev row_axis : Axis
row_axis = axis_fields same 1 1 1 no_axis

abbrev column_axis : Axis
column_axis = axis_fields same 2 2 1 no_axis

abbrev row_input : Tensor Slot
row_input = ((slot 0 1 ∷ []) ∷ (slot 0 2 ∷ []) ∷ []) ∷ []

abbrev row_values : ℕ → ℕ → ℕ → ℕ
row_values h w c = w + 1

abbrev row_filters : ℕ → ℕ → ℕ → ℕ → ℕ
row_filters fh fw ic oc = 3 + 2 * fw

abbrev row_conv : Conv2d ideal
row_conv = record {
  height = row_axis;
  width = column_axis;
  in_channels = 1;
  out_channels = 1;
  plain_filters = (((slot 0 3 ∷ []) ∷ []) ∷ ((slot 0 5 ∷ []) ∷ []) ∷ []) ∷ [];
  plain_biases = slot 1 7 ∷ [];
}

one-IsMeasured : IsMeasured 1 1 1
one-IsMeasured = record {
  sized = record { stride_pos = omega arith; window_pos = omega arith; small = omega arith };
  size_exact = omega arith;
  stride_exact = omega arith;
}

row-Cells : Cells 1 2 1 (λ h w c. Holds ideal 0 30 1 (row_values h w c)) row_input
row-Cells = Each-Filled _ row_input (
  Each-Filled _ ((slot 0 1 ∷ []) ∷ (slot 0 2 ∷ []) ∷ [])
      (Each-Filled _ (slot 0 1 ∷ []) (refl, tt), (Each-Filled _ (slot 0 2 ∷ []) (refl, tt), tt)),
  tt,
)

row_given : Conv2dInput ideal row_conv 0 30 row_values row_filters (λ oc. 7) row_input
unfolding axis_fields
row_given = record {
  left = omega arith;
  nominal = refl;
  channels = omega arith;
  fits_height = axis_fields-FitsInt same 1 1 1 no_axis one-IsMeasured (omega arith) (omega arith);
  fits_width = axis_fields-FitsInt same 2 2 1 no_axis two-IsMeasured (omega arith) (omega arith);
  cells = row-Cells;
  filters = Each-Filled _ row_conv.plain_filters (
    Each-Filled _ (((slot 0 3 ∷ []) ∷ []) ∷ ((slot 0 5 ∷ []) ∷ []) ∷ []) (
      Each-Filled _ ((slot 0 3 ∷ []) ∷ [])
          (Each-Filled _ (slot 0 3 ∷ []) ((refl, omega arith), tt), tt),
      (
        Each-Filled _ ((slot 0 5 ∷ []) ∷ [])
            (Each-Filled _ (slot 0 5 ∷ []) ((refl, omega arith), tt), tt),
        tt,
      ),
    ),
    tt,
  );
  biases = Each-Filled _ (slot 1 7 ∷ []) (refl, tt);
}

conv2d_forward-convolution_example : Returns (conv2d_forward ideal row_conv row_input) (
    Cells row_axis.out column_axis.out 1 λ oh ow oc.
      Holds ideal 1 30 1
        (convolution ideal row_axis column_axis 1 row_values row_filters (λ oc. 7) oh ow oc))
conv2d_forward-convolution_example =
    conv2d_forward-convolution ideal row_conv 0 30 row_values row_filters (λ oc. 7) row_input
      row_given (axis_fields-Reached same 1 1 1 no_axis one-IsMeasured (omega arith) (omega arith))
      (axis_fields-Reached same 2 2 1 no_axis two-IsMeasured (omega arith) (omega arith))

axis_fields-Reached_example : Reached (axis_fields same 5 3 2 no_axis)
axis_fields-Reached_example =
    axis_fields-Reached same 5 3 2 no_axis
      (record {
        sized = record { stride_pos = omega arith; window_pos = omega arith; small = omega arith };
        size_exact = omega arith;
        stride_exact = omega arith;
      })
      (omega arith) (omega arith)

pad_along_lem_example : pad_along 5 3 2 ≡ (ceil_div 5 2 - 1) * 2 + 3 - 5
pad_along_lem_example =
    pad_along_lem 5 3 2
      (record { stride_pos = omega arith; window_pos = omega arith; small = omega arith })
      (omega arith) (omega arith)

narrow-target_start_example :
    (target_start (axis_fields same 6 1 3 no_axis) 1 ≡ 1 * 3 + (3 - 1 + 1) / 2)
    × (target_start (axis_fields same 6 1 3 no_axis) 1 ≢ 1 * 3)
narrow-target_start_example =
    narrow-target_start 6 1 3 1 no_axis
      (record { stride_pos = omega arith; window_pos = omega arith; small = omega arith }) refl
      (omega arith) (omega arith)

-- The first tap of the window at the right end is on the input, the second is not.
is_out_of_range_input-covers_example :
    is_out_of_range_input row_axis column_axis
      (target_at (target_start column_axis 1) 1)
      (target_at (target_start row_axis 0) 0)
    ≡ not (covers row_axis 0 0 && covers column_axis 1 1)
unfolding axis_fields
is_out_of_range_input-covers_example =
    is_out_of_range_input-covers row_axis column_axis 0 1 0 1
      (axis_fields-FitsInt same 1 1 1 no_axis one-IsMeasured (omega arith) (omega arith))
      (axis_fields-FitsInt same 2 2 1 no_axis two-IsMeasured (omega arith) (omega arith))
      (omega arith) (omega arith) (omega arith) (omega arith)
