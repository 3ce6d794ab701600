-- ===== src/Cnn/Geometry/Narrow.antt =====
-- A window that is narrower than its stride, under padding "same".
-- `max(window - stride, 0)` is taken on `size_t`, where the difference wraps around and the maximum
-- has no effect; the half of the wrapped padding then shifts every window.
use pp_cnn.Prelude.{ℕ, ◌+◌, ◌-◌, ◌*◌, ◌/◌, ◌%◌, ◌<◌, ◌≡◌, ◌≢◌, arith, ==_iff}
use pp_cnn.Cnn.Geometry.{
  Axis, same, axis_fields, pad_along, size_mod, int_max, sub_size, target_start,
}
use pp_cnn.Cnn.Geometry.Shape.{IsSized, max_size-zero}

narrow_pad :
    (size window stride : ℕ)
    → IsSized size window stride
    → size % stride ≡ 0
    → window < stride
    → pad_along size window stride ≡ size_mod - (stride - window)
unfolding pad_along
narrow_pad size window stride z whole h =
    rw ((==_iff (size % stride) 0).1 whole, max_size-zero (sub_size window stride))
      (omega (arith, z.small, z.small))

-- Padding "same", a stride that divides the size, and a window narrower than the stride: the window
-- of the output `o` starts at o * stride + ⌈(stride - window) / 2⌉, behind the cell o * stride
-- that is its first.
pub narrow-target_start :
    (size window stride o : ℕ) (uninit : Axis)
    → IsSized size window stride
    → size % stride ≡ 0
    → window < stride
    → o * stride + stride < int_max
    → (target_start (axis_fields same size window stride uninit) o
        ≡ o * stride + (stride - window + 1) / 2)
      × (target_start (axis_fields same size window stride uninit) o ≢ o * stride)
unfolding axis_fields target_start
narrow-target_start size window stride o uninit z whole h lt = (
  omega (arith, narrow_pad size window stride z whole h, z.small),
  omega (arith, narrow_pad size window stride z whole h, z.small),
)
