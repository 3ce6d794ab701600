-- ===== src/Seal/Interface.antt =====
-- SEAL 3.4 (the evaluator and the CKKS encoder that ppcnn/ppcnn_server/cnn calls), as a parameter.
-- It is not code of the repository: a ciphertext or a plaintext is an abstract value, of which only
-- the data below is known, and the laws state what SEAL documents of each call.
--
-- `level` counts the primes that have been dropped from the modulus, `scale` is the label that
-- `scale()` reads and sets, `power` is how many factors of the scale the polynomial really carries,
-- and `value` is the message, in exact arithmetic: CKKS computes it up to a small error.
use pp_cnn.Prelude.{ℕ, suc, ◌+◌, ◌<◌, ◌≡◌, Result, err, seal_error, Returns}

-- The numbers that the slots hold, with the laws of a commutative semiring.
pub record Numbers : Type 1 where
  pub Real : Type 0
  pub nil : Real
  pub plus : Real → Real → Real
  pub times : Real → Real → Real
  pub plus_assoc : (a b c : Real) → plus (plus a b) c ≡ plus a (plus b c)
  pub plus_comm : (a b : Real) → plus a b ≡ plus b a
  pub nil-plus : (a : Real) → plus nil a ≡ a
  pub nil-times : (a : Real) → times nil a ≡ nil
  pub times_assoc : (a b c : Real) → times (times a b) c ≡ times a (times b c)
  pub times_comm : (a b : Real) → times a b ≡ times b a
  pub times-plus : (a b c : Real) → times a (plus b c) ≡ plus (times a b) (times a c)

pub record Message (Scale Real : Type 0) : Type 0 where
  pub level : ℕ
  pub scale : Scale
  pub power : ℕ
  pub value : Real

pub record Seal : Type 1 where
  pub numbers : Numbers
  pub open numbers use *
  pub Float : Type 0
  pub Scale : Type 0
  pub Plaintext : Type 0
  pub Ciphertext : Type 0
  -- how many primes can be dropped
  pub capacity : ℕ
  -- the reading of a `float` as an exact number
  pub real : Float → Real
  -- a value that fits the modulus at the scale in use, and one that does not encode to zero
  pub Encodable : Float → Type 0
  pub Visible : Float → Type 0
  -- `pow(2.0, n)`, the product of two scales, and the quotient by the prime that is dropped
  pub pow2 : ℕ → Scale
  pub product : Scale → Scale → Scale
  pub rescaled : Scale → ℕ → Scale
  -- near to the size of a prime, so that a product of two fits while a prime is left to drop
  pub Nominal : Scale → Type 0
  pub pow2-Nominal : Nominal (pow2 30)
  pub rescaled-Nominal :
      (a b : Scale) (l : ℕ) → Nominal a → Nominal b → Nominal (rescaled (product a b) l)
  pub plain : Plaintext → Message Scale Real
  pub NonZero : Plaintext → Type 0
  pub message : Ciphertext → Message Scale Real
  -- `Ciphertext()`
  pub blank : Ciphertext
  pub encode : Float → Scale → Result Plaintext
  pub plain_mod_switch_to_next : Plaintext → Result Plaintext
  pub mod_switch_to_next : Ciphertext → Result Ciphertext
  pub square : Ciphertext → Result Ciphertext
  pub relinearize : Ciphertext → Result Ciphertext
  pub rescale_to_next : Ciphertext → Result Ciphertext
  -- `x.scale() = s`
  pub set_scale : Scale → Ciphertext → Ciphertext
  pub multiply_plain : Ciphertext → Plaintext → Result Ciphertext
  pub add : Ciphertext → Ciphertext → Result Ciphertext
  pub add_plain : Ciphertext → Plaintext → Result Ciphertext
  pub encode_lem :
      (v : Float) (s : Scale)
      → Encodable v
      → Returns
          (encode v s)
          λ p. plain p ≡ record { level = 0; scale = s; power = 1; value = real v }
  pub encode-NonZero :
      (v : Float) (s : Scale) (p : Plaintext) → Visible v → encode v s ≡ Result.ok p → NonZero p
  pub plain_mod_switch_to_next_lem :
      (p : Plaintext)
      → (plain p).level < capacity
      → Returns
          (plain_mod_switch_to_next p)
          λ q. plain q ≡ record (plain p) { level = suc (plain p).level }
  pub plain_mod_switch_to_next-NonZero :
      (p q : Plaintext) → NonZero p → plain_mod_switch_to_next p ≡ Result.ok q → NonZero q
  pub mod_switch_to_next_lem :
      (x : Ciphertext)
      → (message x).level < capacity
      → Returns
          (mod_switch_to_next x)
          λ y. message y ≡ record (message x) { level = suc (message x).level }
  pub square_lem :
      (x : Ciphertext)
      → (message x).level < capacity
      → Nominal (message x).scale
      → Returns (square x) λ y. message y ≡ record {
        level = (message x).level;
        scale = product (message x).scale (message x).scale;
        power = (message x).power + (message x).power;
        value = times (message x).value (message x).value;
      }
  pub relinearize_lem : (x : Ciphertext) → Returns (relinearize x) λ y. message y ≡ message x
  pub rescale_to_next_lem :
      (x : Ciphertext) (k : ℕ)
      → (message x).level < capacity
      → (message x).power ≡ suc k
      → Returns (rescale_to_next x) λ y. message y ≡ record {
        level = suc (message x).level;
        scale = rescaled (message x).scale (message x).level;
        power = k;
        value = (message x).value;
      }
  pub rescale_to_next-blank : rescale_to_next blank ≡ err seal_error
  pub set_scale_lem :
      (s : Scale) (x : Ciphertext) → message (set_scale s x) ≡ record (message x) { scale = s }
  -- A product with the zero plaintext would be a transparent ciphertext, which SEAL refuses.
  pub multiply_plain_lem :
      (x : Ciphertext) (p : Plaintext)
      → (message x).level ≡ (plain p).level
      → (message x).level < capacity
      → Nominal (message x).scale
      → Nominal (plain p).scale
      → NonZero p
      → Returns (multiply_plain x p) λ y. message y ≡ record {
        level = (message x).level;
        scale = product (message x).scale (plain p).scale;
        power = (message x).power + (plain p).power;
        value = times (message x).value (plain p).value;
      }
  pub multiply_plain-blank : (p : Plaintext) → multiply_plain blank p ≡ err seal_error
  pub add_lem :
      (x y : Ciphertext) (k : ℕ)
      → (message x).level ≡ (message y).level
      → (message x).scale ≡ (message y).scale
      → (message x).power ≡ suc k
      → (message y).power ≡ suc k
      → Returns
          (add x y)
          λ z. message z ≡ record (message x) { value = plus (message x).value (message y).value }
  pub add-blank : (y : Ciphertext) → add blank y ≡ err seal_error
  pub add_plain_lem :
      (x : Ciphertext) (p : Plaintext)
      → (message x).level ≡ (plain p).level
      → (message x).scale ≡ (plain p).scale
      → (message x).power ≡ (plain p).power
      → Returns
          (add_plain x p)
          λ z. message z ≡ record (message x) { value = plus (message x).value (plain p).value }
