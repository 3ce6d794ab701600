-- ===== src/Cnn/Geometry/Shape.antt =====
-- The shape that the constructors give to the output, against the rules of Keras.
use pp_cnn.Prelude.{
  ℕ, zero, suc, refl, subst, ap, ◌∙◌, ==_iff, ◌+◌, ◌-◌, ◌*◌, ◌/◌, ◌%◌, ◌≤◌, ◌<◌, ◌≡◌, true, inl,
  inr, arith, ◌==◌, Bool-cases,
}
use native.Mathlib.Nat.{div-add-mod', mod-lt, mod-eq_of_lt}
use pp_cnn.Cnn.Geometry.{
  Axis, Padding, valid, same, other_padding, axis_fields, pad_along, size_mod, int_max, sub_size,
  ceil_div, ceil_float, float_max, max_size,
}
use pp_cnn.Cnn.Geometry.Reach.{covers, FitsInt}

-- An index below a rounded-up quotient, times the divisor, is below the dividend.
pub mul-lt_of_ceil_div : (n s o : ℕ) → 0 < s → o < ceil_div n s → o * s < n
mul-lt_of_ceil_div n s o hs lt = grind arith

-- Sizes for which the constructors compute without a wrap-around.
pub record IsSized (size window stride : ℕ) : Type 0 where
  pub stride_pos : 0 < stride
  pub window_pos : 0 < window
  pub small : size + window + stride ≤ int_max

-- And whose quotients of `float` have the exact ceiling.
pub record IsMeasured (size window stride : ℕ) : Type 0 where
  pub sized : IsSized size window stride
  pub size_exact : size ≤ float_max
  pub stride_exact : stride ≤ float_max

pub ceil_float_exact :
    (a b other : ℕ) → 0 < b → a ≤ float_max → b ≤ float_max → ceil_float a b other ≡ ceil_div a b
unfolding ceil_float
ceil_float_exact a b other pos la lb = ground arith

-- Keras, padding "valid": out = ceil((in - window + 1) / stride), and no tap leaves the input.
pub valid-covers :
    (size window stride : ℕ) (uninit : Axis) (o f : ℕ)
    → IsMeasured size window stride
    → window ≤ size
    → let a = axis_fields valid size window stride uninit in
      o < a.out → f < window → covers a o f ≡ true
unfolding axis_fields
valid-covers size window stride uninit o f z h lt lf = ground (arith, z.sized.small, below)
  where
    n : ℕ
    n = (sub_size size window + 1) % size_mod

    n_lem : n ≡ size - window + 1
    n_lem = omega (arith, z.sized.small)

    fits : n ≤ float_max
    fits = omega (arith, n_lem, z.size_exact, z.sized.window_pos, h)

    exact : ceil_float n stride uninit.out ≡ ceil_div n stride
    exact = ceil_float_exact n stride uninit.out z.sized.stride_pos fits z.stride_exact

    below : o * stride < size - window + 1
    below = omega (
      arith,
      mul-lt_of_ceil_div n stride o z.sized.stride_pos (subst (λ k. o < k) exact lt),
      n_lem,
    )

-- What is left of the input behind the last window but one.
pred-mul : (q s : ℕ) → (q - 1) * s ≡ q * s - s
pred-mul zero s = omega arith
pred-mul (suc q) s = ap (λ (c : ℕ). c * s) {x = suc q - 1} {y = q} (omega arith) ∙ omega arith

last_start_whole : (n s : ℕ) → 0 < s → 0 < n → n % s ≡ 0 → (ceil_div n s - 1) * s ≡ n - s
last_start_whole n s hs hn e =
    omega (arith, pred-mul (n / s) s, div-add-mod' n s, ap (λ (c : ℕ). (c - 1) * s) quotient)
  where
    quotient : ceil_div n s ≡ n / s
    quotient = grind arith

last_start_part : (n s : ℕ) → 0 < s → 0 < n % s → (ceil_div n s - 1) * s ≡ n - n % s
last_start_part n s hs hr = omega (arith, div-add-mod' n s, ap (λ (c : ℕ). c * s) quotient)
  where
    quotient : ceil_div n s - 1 ≡ n / s
    quotient = grind arith

le_of_whole : (n s : ℕ) → 0 < s → 0 < n → n % s ≡ 0 → s ≤ n
le_of_whole n s hs hn e = grind (arith, mod-eq_of_lt)

pub max_size-zero : (a : ℕ) → max_size a 0 ≡ a
max_size-zero a = ground arith

pub sub_size_lem : (a b : ℕ) → b ≤ a → a ≤ int_max → sub_size a b ≡ a - b
sub_size_lem a b h m = omega arith

-- For a stride that is not wider than the window and sizes without a wrap-around, the whole padding
-- under "same" is max((out - 1) * stride + window - in, 0), as in Keras.
pub pad_along_lem :
    (size window stride : ℕ)
    → IsSized size window stride
    → 0 < size
    → stride ≤ window
    → pad_along size window stride ≡ (ceil_div size stride - 1) * stride + window - size
unfolding pad_along
pad_along_lem size window stride z p h = elim (Bool-cases (size % stride == 0)) [
  | inl whole ↦
      let e : size % stride ≡ 0 = (==_iff _ _).0 whole in
      rw (whole, max_size-zero (sub_size window stride))
        (omega (
          arith,
          last_start_whole size stride z.stride_pos p e,
          le_of_whole size stride z.stride_pos p e,
          sub_size_lem window stride h (omega arith),
        ))
  | inr part ↦
      let r : size % stride < stride = mod-lt size z.stride_pos in
      rw (part, max_size-zero (sub_size window (size % stride)))
        (omega (
          arith,
          last_start_part size stride z.stride_pos (ground arith),
          sub_size_lem window (size % stride) (omega arith) (omega arith),
        ))
]

pad_along-le :
    (size window stride : ℕ)
    → IsSized size window stride
    → 0 < size
    → stride ≤ window
    → pad_along size window stride ≤ window
pad_along-le size window stride z p h = omega (
  arith,
  pad_along_lem size window stride z p h,
  mul-lt_of_ceil_div size stride (ceil_div size stride - 1) z.stride_pos (pos z.stride_pos p),
)
  where
    pos : 0 < stride → 0 < size → ceil_div size stride - 1 < ceil_div size stride
    pos hs hp = grind arith

-- With a positive size every output has a tap on the input: the first tap behind the padding.
pub same-covers :
    (size window stride : ℕ) (uninit : Axis) (o : ℕ)
    → IsMeasured size window stride
    → 0 < size
    → stride ≤ window
    → let a = axis_fields same size window stride uninit in
      o < a.out → (a.pad_before < window) × (covers a o a.pad_before ≡ true)
unfolding axis_fields
same-covers size window stride uninit o z p h lt = (
  omega (arith, bound),
  ground (arith, mul-lt_of_ceil_div size stride o z.sized.stride_pos below),
)
  where
    below : o < ceil_div size stride
    below =
        subst (λ k. o < k)
          (ceil_float_exact size stride uninit.out z.sized.stride_pos z.size_exact z.stride_exact)
          lt

    bound : pad_along size window stride ≤ window
    bound = omega (
      arith,
      pad_along_lem size window stride z.sized p h,
      mul-lt_of_ceil_div size stride (ceil_div size stride - 1) z.sized.stride_pos
          (omega (arith, below)),
    )

-- The paddings under which the constructors follow Keras.
abbrev pub IsCovered : Padding → ℕ → ℕ → ℕ → Type 0
IsCovered valid size window stride = window ≤ size
IsCovered same size window stride = stride ≤ window
IsCovered other_padding size window stride = ⊥

-- Every output has a tap on the input.
abbrev pub Reached : Axis → Type 0
Reached a = (o : ℕ) → o < a.out → (f : ℕ) × (f < a.window) × (covers a o f ≡ true)

-- For sizes without a wrap-around and up to 2 ^ 24, with a window that is not wider than the input
-- under "valid" and a stride that is not wider than the window under "same", every output has a tap
-- on the input.
pub axis_fields-Reached :
    (padding : Padding) (size window stride : ℕ) (uninit : Axis)
    → IsMeasured size window stride
    → 0 < size
    → IsCovered padding size window stride
    → Reached (axis_fields padding size window stride uninit)
unfolding axis_fields
axis_fields-Reached valid size window stride uninit z p c o lt =
    (0, z.sized.window_pos, valid-covers size window stride uninit o 0 z c lt z.sized.window_pos)
axis_fields-Reached same size window stride uninit z p c o lt =
    let (lf, on) = same-covers size window stride uninit o z p c lt in
    (pad_along size window stride / 2, lf, on)
axis_fields-Reached other_padding size window stride uninit z p c o lt = absurd c

ceil_float-mul-lt :
    (n s other : ℕ) → 0 < s → n ≤ float_max → s ≤ float_max → ceil_float n s other * s < n + s
ceil_float-mul-lt n s other hs ln ls =
    rw (ceil_float_exact n s other hs ln ls) (ceil_div-mul-lt n s hs)
  where
    ceil_div-mul-lt : (n s : ℕ) → 0 < s → ceil_div n s * s < n + s
    ceil_div-mul-lt n s hs = grind arith

-- For the same sizes, the offsets that the forward pass computes fit an `int`.
pub axis_fields-FitsInt :
    (padding : Padding) (size window stride : ℕ) (uninit : Axis)
    → IsMeasured size window stride
    → 0 < size
    → IsCovered padding size window stride
    → FitsInt (axis_fields padding size window stride uninit)
unfolding axis_fields
axis_fields-FitsInt valid size window stride uninit z p c = record {
  reach = omega (
    arith,
    z.sized.small,
    ceil_float-mul-lt ((sub_size size window + 1) % size_mod) stride uninit.out z.sized.stride_pos
        (omega (arith, z.sized.small, z.sized.window_pos, z.size_exact, c)) z.stride_exact,
  );
  padding = omega arith;
  input = omega (arith, z.sized.small);
}
axis_fields-FitsInt same size window stride uninit z p c = record {
  reach = omega (
    arith,
    z.sized.small,
    ceil_float-mul-lt size stride uninit.out z.sized.stride_pos z.size_exact z.stride_exact,
  );
  padding = omega (arith, z.sized.small, pad_along-le size window stride z.sized p c);
  input = omega (arith, z.sized.small);
}
axis_fields-FitsInt other_padding size window stride uninit z p c = absurd c

module _ (uninit : Axis) where
  pub axis_fields-size :
      (p : Padding) (size window stride : ℕ) → (axis_fields p size window stride uninit).size ≡ size
  unfolding axis_fields
  axis_fields-size valid size window stride = refl
  axis_fields-size same size window stride = refl
  axis_fields-size other_padding size window stride = refl

  pub axis_fields-window :
      (p : Padding) (size window stride : ℕ)
      → (axis_fields p size window stride uninit).window ≡ window
  unfolding axis_fields
  axis_fields-window valid size window stride = refl
  axis_fields-window same size window stride = refl
  axis_fields-window other_padding size window stride = refl
