-- ===== src/Seal/Rules.antt =====
-- The laws of the evaluator, as rules that follow a known message from call to call.
use pp_cnn.Prelude.{ℕ, suc, ◌+◌, ◌<◌, ◌≡◌, refl, Returns}
use pp_cnn.Seal.Interface.{Seal}

module _ (seal : Seal) where
  open seal use {
    Real, Scale, Plaintext, Ciphertext, capacity, plus, times, product, rescaled, Nominal, plain,
    message, NonZero, mod_switch_to_next, square, relinearize, rescale_to_next, set_scale,
    multiply_plain, add, add_plain, plain_mod_switch_to_next,
  }

  -- A ciphertext or a plaintext with a known message.
  abbrev pub Holds : ℕ → Scale → ℕ → Real → Ciphertext → Type 0
  Holds l s k v x = message x ≡ record { level = l; scale = s; power = k; value = v }

  abbrev pub PlainHolds : ℕ → Scale → Real → Plaintext → Type 0
  PlainHolds l s v p = plain p ≡ record { level = l; scale = s; power = 1; value = v }

  module _ {l : ℕ} {s : Scale} {k : ℕ} {v : Real} (x : Ciphertext) (h : Holds l s k v x) where
    pub mod_switch_to_next-Holds :
        l < capacity → Returns (mod_switch_to_next x) (Holds (suc l) s k v)
    mod_switch_to_next-Holds lt = rw h at (seal.mod_switch_to_next_lem x (rw h lt))

    pub square-Holds :
        l < capacity → Nominal s → Returns (square x) (Holds l (product s s) (k + k) (times v v))
    square-Holds lt n = rw h at (seal.square_lem x (rw h lt) (rw h n))

    pub relinearize-Holds : Returns (relinearize x) (Holds l s k v)
    relinearize-Holds = rw h at (seal.relinearize_lem x)

    pub set_scale-Holds : (t : Scale) → Holds l t k v (set_scale t x)
    set_scale-Holds t = rw h at (seal.set_scale_lem t x)

    pub multiply_plain-Holds :
        {t : Scale} {w : Real} (p : Plaintext)
        → PlainHolds l t w p
        → NonZero p
        → l < capacity
        → Nominal s
        → Nominal t
        → Returns (multiply_plain x p) (Holds l (product s t) (k + 1) (times v w))
    multiply_plain-Holds p e nz lt n m =
        rw (h, e) at (seal.multiply_plain_lem x p (rw (h, e) refl) (rw h lt) (rw h n) (rw e m) nz)

  module _ {l : ℕ} {s : Scale} {v : Real} where
    pub add-Holds :
        {k : ℕ} {w : Real} (x : Ciphertext)
        → Holds l s (suc k) v x
        → (y : Ciphertext) → Holds l s (suc k) w y
        → Returns (add x y) (Holds l s (suc k) (plus v w))
    add-Holds {k} x h y e =
        rw (h, e) at (seal.add_lem x y k (rw (h, e) refl) (rw (h, e) refl) (rw h refl) (rw e refl))

    pub rescale_to_next-Holds :
        (k : ℕ) (x : Ciphertext)
        → Holds l s (suc k) v x
        → l < capacity
        → Returns (rescale_to_next x) (Holds (suc l) (rescaled s l) k v)
    rescale_to_next-Holds k x h lt = rw h at (seal.rescale_to_next_lem x k (rw h lt) (rw h refl))

    pub add_plain-Holds :
        {w : Real} (x : Ciphertext) (p : Plaintext)
        → Holds l s 1 v x
        → PlainHolds l s w p
        → Returns (add_plain x p) (Holds l s 1 (plus v w))
    add_plain-Holds x p h e =
        rw (h, e) at (seal.add_plain_lem x p (rw (h, e) refl) (rw (h, e) refl) (rw (h, e) refl))

    pub plain_mod_switch_to_next-Holds :
        (p : Plaintext)
        → PlainHolds l s v p
        → l < capacity
        → Returns (plain_mod_switch_to_next p) (PlainHolds (suc l) s v)
    plain_mod_switch_to_next-Holds p h lt = rw h at (seal.plain_mod_switch_to_next_lem p (rw h lt))
