-- ===== src/Cnn/Geometry.antt =====
-- The sliding window of `Conv2D` and `AveragePooling2D` (ppcnn/ppcnn_server/cnn/conv2d.cpp and
-- average_pooling2d.cpp), along one axis: both constructors compute the same fields twice, for the
-- height and for the width. `size_t` is a word of 64 bits and `int` one of 32; a negative `int` is
-- the word from 2 ^ 31 on.
pub mod Reach
pub mod Shape
pub mod Narrow
use pp_cnn.Prelude.{
  ℕ, ◌+◌, ◌-◌, ◌*◌, ◌/◌, ◌%◌, ◌^◌, Bool, ◌||◌, ◌&&◌, ltb, leb, ◌==◌, if◌then◌else◌,
}

-- The strings that the constructors compare `padding` with, and any other string.
pub data Padding : Type 0 where
  valid same other_padding : Padding

pub record Axis : Type 0 where
  pub size : ℕ
  pub window : ℕ
  pub stride : ℕ
  pub out : ℕ
  pub pad_before : ℕ
  pub pad_after : ℕ

abbrev pub size_mod : ℕ
size_mod = 2 ^ 64

abbrev pub int_mod : ℕ
int_mod = 2 ^ 32

abbrev pub int_max : ℕ
int_max = 2 ^ 31

-- `a - b` on `size_t`
abbrev pub sub_size : ℕ → ℕ → ℕ
sub_size a b = (a + size_mod - b) % size_mod

-- `std::max` on `size_t`
abbrev pub max_size : ℕ → ℕ → ℕ
max_size a b = if ltb a b then b else a

-- The exact ceiling of a / b.
abbrev pub ceil_div : ℕ → ℕ → ℕ
ceil_div a b = (a + b - 1) / b

-- The sizes that a `float` holds exactly.
abbrev pub float_max : ℕ
float_max = 2 ^ 24

-- `ceil(static_cast<float>(a) / static_cast<float>(b))`. Up to `float_max` both conversions are exact.
-- Where the quotient is not an integer, it lies at least 1 / b above the integer k below it, and k is
-- smaller than 2 ^ 24 / b, so that 1 / b is more than half of the distance from k to the `float` behind
-- it: the quotient is not rounded to k, and the ceiling is exact. What the roundings make of larger
-- sizes, or of a division by zero, is left open: it is the last argument.
unfoldable pub ceil_float : (a b other : ℕ) → ℕ
ceil_float a b other = if ltb 0 b && leb a float_max && leb b float_max then ceil_div a b else other

-- `pad_along_height` and `pad_along_width`
unfoldable pub pad_along : ℕ → ℕ → ℕ → ℕ
pad_along size window stride =
    let rem = size % stride in
    if rem == 0 then max_size (sub_size window stride) 0 else max_size (sub_size window rem) 0

-- The fields that the constructor sets. The last argument holds what the sizes do not determine here:
-- the fields that any other padding leaves as they were, and a quotient that is rounded.
unfoldable pub axis_fields : Padding → ℕ → ℕ → ℕ → Axis → Axis
unfolding pad_along ceil_float
axis_fields valid size window stride uninit = record {
  size = size;
  window = window;
  stride = stride;
  out = ceil_float ((sub_size size window + 1) % size_mod) stride uninit.out;
  pad_before = 0;
  pad_after = 0;
}
axis_fields same size window stride uninit =
    let pad = pad_along size window stride in
    record {
      size = size;
      window = window;
      stride = stride;
      out = ceil_float size stride uninit.out;
      pad_before = pad / 2;
      pad_after = sub_size pad (pad / 2);
    }
axis_fields other_padding size window stride uninit = record uninit {
  size = size;
  window = window;
  stride = stride;
}

-- `target_top = oh * stride_height_ - pad_top_`, cut to an `int`
unfoldable pub target_start : Axis → ℕ → ℕ
target_start a o = (o * a.stride + size_mod - a.pad_before) % size_mod % int_mod

-- `target_y = target_top + fh`
unfoldable pub target_at : ℕ → ℕ → ℕ
target_at start f = (start + f) % int_mod

abbrev pub is_negative : ℕ → Bool
is_negative w = leb int_max w

-- `isOutOfRangeInput(target_x, target_y)`
unfoldable pub is_out_of_range_input : Axis → Axis → ℕ → ℕ → Bool
is_out_of_range_input height width x y =
    is_negative x || is_negative y || leb width.size x || leb height.size y
