-- ===== src/Cnn/Geometry/Reach.antt =====
-- Which cell of the input a tap of the window reads.
use pp_cnn.Prelude.{ℕ, ◌+◌, ◌-◌, ◌*◌, ◌≤◌, ◌<◌, ◌≡◌, Bool, true, ◌||◌, arith, ltb, leb, ◌&&◌, not}
use pp_cnn.Cnn.Geometry.{Axis, int_max, target_start, target_at, is_out_of_range_input}

-- The offsets stay within an `int`.
pub record FitsInt (a : Axis) : Type 0 where
  pub reach : a.out * a.stride + a.window ≤ int_max
  pub padding : a.pad_before ≤ int_max
  pub input : a.size ≤ int_max

-- The tap `f` at the output `o` lies on the input: an independent description, over ℕ.
abbrev pub covers : Axis → ℕ → ℕ → Bool
covers a o f = leb a.pad_before (o * a.stride + f) && ltb (o * a.stride + f) (a.pad_before + a.size)

-- The cell that it then reads.
abbrev pub source_cell : Axis → ℕ → ℕ → ℕ
source_cell a o f = o * a.stride + f - a.pad_before

offset-lt : (a : Axis) (o f : ℕ) → FitsInt a → o < a.out → f < a.window → o * a.stride + f < int_max
offset-lt a o f fit lt lf = grind (arith, fit.reach)

pub target_at-covers :
    (a : Axis) (o f : ℕ)
    → FitsInt a
    → o < a.out
    → f < a.window
    → covers a o f ≡ true
    → target_at (target_start a o) f ≡ source_cell a o f
unfolding target_at target_start
target_at-covers a o f fit lt lf c =
    ground (arith, offset-lt a o f fit lt lf, fit.padding, fit.input)

abbrev off_axis : Axis → ℕ → Bool
off_axis a w = leb int_max w || leb a.size w

off_axis-covers :
    (a : Axis) (o f : ℕ)
    → FitsInt a
    → o < a.out
    → f < a.window
    → off_axis a (target_at (target_start a o) f) ≡ not (covers a o f)
unfolding target_at target_start
off_axis-covers a o f fit lt lf = ground (arith, offset-lt a o f fit lt lf, fit.padding, fit.input)

-- On axes whose offsets fit an `int`, `isOutOfRangeInput` on the wrapped coordinates rejects exactly the
-- taps that one of the two axes does not cover.
pub is_out_of_range_input-covers :
    (height width : Axis) (oh ow fh fw : ℕ)
    → FitsInt height
    → FitsInt width
    → oh < height.out
    → ow < width.out
    → fh < height.window
    → fw < width.window
    → is_out_of_range_input height width
        (target_at (target_start width ow) fw)
        (target_at (target_start height oh) fh)
      ≡ not (covers height oh fh && covers width ow fw)
unfolding is_out_of_range_input
is_out_of_range_input-covers height width oh ow fh fw fith fitw lh lw lfh lfw =
    ground
      (arith, off_axis-covers height oh fh fith lh lfh, off_axis-covers width ow fw fitw lw lfw)
