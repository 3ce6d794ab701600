-- ===== src/Cnn/Sums.antt =====
-- Finite sums of slot values, the independent description of what the layers compute.
use pp_cnn.Prelude.{ℕ, zero, suc, ◌+◌, ◌<◌, ◌≡◌, refl, ap, ◌∙◌, arith, dec_lt}
use pp_cnn.Seal.{Numbers}

module _ (n : Numbers) where
  open n use {Real, nil, plus, times, plus_assoc, plus_comm, nil-plus, nil-times}

  -- f 0 + … + f (k - 1)
  unfoldable pub sum : ℕ → (ℕ → Real) → Real
  sum zero f = nil
  sum (suc k) f = plus (sum k f) (f k)

  pub sum-zero : (f : ℕ → Real) → sum 0 f ≡ nil
  unfolding sum
  sum-zero f = refl

  pub sum-suc : (k : ℕ) (f : ℕ → Real) → sum (suc k) f ≡ plus (sum k f) (f k)
  unfolding sum
  sum-suc k f = refl

  pub plus-nil : (a : Real) → plus a nil ≡ a
  plus-nil a = plus_comm a nil ∙ nil-plus a

  -- A sum of terms that are all nil.
  pub sum_of_nil : (k : ℕ) (f : ℕ → Real) → ((i : ℕ) → f i ≡ nil) → sum k f ≡ nil
  sum_of_nil zero f h = sum-zero f
  sum_of_nil (suc k) f h = rw (sum-suc k f, sum_of_nil k f h, h k) (nil-plus nil)

-- How many of the first `k` indices pass a test.
unfoldable pub count : ℕ → (ℕ → ℕ) → ℕ
count zero f = 0
count (suc k) f = count k f + f k

pub count-zero : (f : ℕ → ℕ) → count 0 f ≡ 0
unfolding count
count-zero f = refl

pub count-suc : (k : ℕ) (f : ℕ → ℕ) → count (suc k) f ≡ count k f + f k
unfolding count
count-suc k f = refl

pub count-pos : (k i : ℕ) (f : ℕ → ℕ) → i < k → 0 < f i → 0 < count k f
unfolding count
count-pos zero i f lt h = elim lt [ ]
count-pos (suc k) i f lt h = elim (dec_lt i k) [
  | yes below ↦ omega (arith, count-pos k i f below h)
  | no last ↦ omega (arith, ap f {x = i} {y = k} (omega arith))
]
