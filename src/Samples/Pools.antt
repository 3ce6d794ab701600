-- ===== src/Samples/Pools.antt =====
-- Runs of the poolings over the ideal implementation of SEAL.
use pp_cnn.Prelude.{
  Filled, ℕ, suc, ◌+◌, ◌*◌, ◌≡◌, refl, arith, Bool, true, false, List, [], ◌∷◌, ok, err, seal_error,
  Returns, some, Each-Filled, zero, ap, sym, some_inj, none≢some, get_elem?, length,
}
use pp_cnn.Seal.{Holds}
use pp_cnn.Samples.Ideal.{Slot, slot, ideal}
use pp_cnn.Samples.Models.{no_axis}
use pp_cnn.Cnn.Geometry.{valid, same, axis_fields, pad_along}
use pp_cnn.Cnn.Geometry.Shape.{IsMeasured, valid-covers, axis_fields-FitsInt}
use pp_cnn.Cnn.Tensor.{Tensor, Cells}
use pp_cnn.Cnn.AveragePooling2d.{AveragePooling2d, average_pooling2d_forward, pool_cell}
use pp_cnn.Cnn.AveragePooling2d.Window.{Inside, PoolInput, window_sum}
use pp_cnn.Cnn.AveragePooling2d.Forward.{average_pooling2d_forward-mean, pool_cell-throws}
use pp_cnn.Cnn.Sums.{sum}
use pp_cnn.Cnn.Flatten.{Flatten, flatten, global_average_pooling2d_flatten}
use pp_cnn.Cnn.Flatten.Global.{global_average_pooling2d_flatten-sum}
use pp_cnn.Cnn.Flatten.Forward.{Extents, row_major, flatten-row_major}

abbrev row_input : Tensor Slot
row_input = ((slot 0 1 ∷ []) ∷ (slot 0 2 ∷ []) ∷ []) ∷ []

abbrev row_values : ℕ → ℕ → ℕ → ℕ
row_values h w c = w + 1

row-Cells : Cells 1 2 1 (λ h w c. Holds ideal 0 30 1 (row_values h w c)) row_input
row-Cells = Each-Filled _ row_input (
  Each-Filled _ ((slot 0 1 ∷ []) ∷ (slot 0 2 ∷ []) ∷ [])
      (Each-Filled _ (slot 0 1 ∷ []) (refl, tt), (Each-Filled _ (slot 0 2 ∷ []) (refl, tt), tt)),
  tt,
)

one-IsMeasured : IsMeasured 1 1 1
one-IsMeasured = record {
  sized = record { stride_pos = omega arith; window_pos = omega arith; small = omega arith };
  size_exact = omega arith;
  stride_exact = omega arith;
}

two-IsMeasured : IsMeasured 2 2 1
two-IsMeasured = record {
  sized = record { stride_pos = omega arith; window_pos = omega arith; small = omega arith };
  size_exact = omega arith;
  stride_exact = omega arith;
}

-- The whole row is one window.
abbrev row_pool : Bool → AveragePooling2d ideal
row_pool optimized = record {
  height = axis_fields valid 1 1 1 no_axis;
  width = axis_fields valid 2 2 1 no_axis;
  out_channels = 1;
  plain_mul_factor = slot 0 4;
  optimized = optimized;
}

row_given : (optimized : Bool) → PoolInput ideal (row_pool optimized) 0 30 row_values row_input
unfolding axis_fields
row_given optimized = record {
  fits_height = axis_fields-FitsInt valid 1 1 1 no_axis one-IsMeasured (omega arith) (omega arith);
  fits_width = axis_fields-FitsInt valid 2 2 1 no_axis two-IsMeasured (omega arith) (omega arith);
  window_height = omega arith;
  window_width = omega arith;
  cells = row-Cells;
}

Inside-height : Inside (axis_fields valid 1 1 1 no_axis)
unfolding axis_fields
Inside-height o f lo lf = valid-covers 1 1 1 no_axis o f one-IsMeasured (omega arith) lo lf

Inside-width : Inside (axis_fields valid 2 2 1 no_axis)
unfolding axis_fields
Inside-width o f lo lf = valid-covers 2 2 1 no_axis o f two-IsMeasured (omega arith) lo lf

average_pooling2d_forward-mean_example :
    Returns (average_pooling2d_forward ideal (row_pool false) row_input) (
      Cells (row_pool false).height.out (row_pool false).width.out 1 λ oh ow oc.
        Holds ideal 1 30 1
          (window_sum ideal (row_pool false).height (row_pool false).width row_values oh ow oc * 4))
average_pooling2d_forward-mean_example =
    average_pooling2d_forward-mean ideal (row_pool false) 0 30 row_values 4 row_input
      (row_given false) Inside-height Inside-width refl refl (omega arith) (omega arith) refl

-- Under padding "same", a window of three pixels starts before the row.
abbrev padded_pool : AveragePooling2d ideal
padded_pool = record {
  height = axis_fields same 1 1 1 no_axis;
  width = axis_fields same 2 3 1 no_axis;
  out_channels = 1;
  plain_mul_factor = slot 0 4;
  optimized = true;
}

padded_given : PoolInput ideal padded_pool 0 30 row_values row_input
unfolding axis_fields
padded_given = record {
  fits_height = axis_fields-FitsInt same 1 1 1 no_axis one-IsMeasured (omega arith) (omega arith);
  fits_width =
      axis_fields-FitsInt same 2 3 1 no_axis
        (record {
          sized = record {
            stride_pos = omega arith;
            window_pos = omega arith;
            small = omega arith;
          };
          size_exact = omega arith;
          stride_exact = omega arith;
        })
        (omega arith) (omega arith);
  window_height = omega arith;
  window_width = omega arith;
  cells = row-Cells;
}

pool_cell-throws_example : pool_cell ideal padded_pool row_input 0 0 0 ≡ err seal_error
unfolding axis_fields pad_along
pool_cell-throws_example =
    pool_cell-throws ideal padded_pool 0 30 row_values row_input padded_given 0 0 0 (omega arith)
      (omega arith) (omega arith) refl 0 1 (omega arith) (omega arith) refl

abbrev row_layer : Flatten
row_layer = record { in_height = 1; in_width = 2; in_channels = 1; out_units = 2 }

row-Extents : Extents 1 2 1 row_input
row-Extents = record { rows = refl; columns = one_row; cells = one_channel }
  where
    one_row : (h : ℕ) (row : List (List Slot)) → get_elem? row_input h ≡ some row → length row ≡ 2
    one_row zero row e = ap length (sym (some_inj e))
    one_row (suc h) row e = absurd (none≢some e)

    column_of :
        (w : ℕ) (column : List Slot)
        → get_elem? ((slot 0 1 ∷ []) ∷ (slot 0 2 ∷ []) ∷ []) w ≡ some column
        → length column ≡ 1
    column_of zero column e = ap length (sym (some_inj e))
    column_of (suc zero) column e = ap length (sym (some_inj e))
    column_of (suc (suc w)) column e = absurd (none≢some e)

    one_channel :
        (h w : ℕ) (row : List (List Slot)) (column : List Slot)
        → get_elem? row_input h ≡ some row
        → get_elem? row w ≡ some column
        → length column ≡ 1
    one_channel zero w row column er ec = column_of w column (rw (← some_inj er) at ec)
    one_channel (suc h) w row column er ec = absurd (none≢some er)

flatten-row_major_example : flatten ideal row_layer row_input ≡ ok (row_major row_input)
flatten-row_major_example = flatten-row_major ideal row_layer row_input row-Extents refl

abbrev row_global : Flatten
row_global = record { in_height = 1; in_width = 2; in_channels = 1; out_units = 1 }

global_average_pooling2d_flatten-sum_example :
    Returns (global_average_pooling2d_flatten ideal row_global row_input) (
      Filled 1 λ c.
        Holds ideal 0 30 1 (sum ideal.numbers 1 λ ih. sum ideal.numbers 2 λ iw. row_values ih iw c))
global_average_pooling2d_flatten-sum_example =
    global_average_pooling2d_flatten-sum ideal row_global 0 30 row_values row_input row-Cells refl
      (omega arith) (omega arith)
