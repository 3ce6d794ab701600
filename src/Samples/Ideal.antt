-- ===== src/Samples/Ideal.antt =====
-- An implementation of the interface to SEAL that keeps each message in the clear, over the natural
-- numbers: every law of the interface holds for it.
use pp_cnn.Prelude.{
  ℕ, zero, suc, ◌+◌, ◌*◌, ◌<◌, ◌≡◌, refl, ap, arith, Result, ok, err, seal_error, if◌then◌else◌,
  ltb, lt→ltb,
}
use pp_cnn.Seal.{Numbers, Message, Seal}

abbrev pub Slot : Type 0
Slot = Message ℕ ℕ

abbrev pub naturals : Numbers
naturals = record {
  Real = ℕ;
  nil = 0;
  plus = λ a b. a + b;
  times = λ a b. a * b;
  plus_assoc = λ a b c. omega arith;
  plus_comm = λ a b. omega arith;
  nil-plus = λ a. omega arith;
  nil-times = λ a. omega arith;
  times_assoc = λ a b c. omega arith;
  times_comm = λ a b. omega arith;
  times-plus = λ a b c. omega arith;
}

abbrev pub room : ℕ
room = 8

abbrev pub slot : ℕ → ℕ → Slot
slot l v = record { level = l; scale = 30; power = 1; value = v }

-- A ciphertext that nothing was assigned to: it carries no factor of the scale.
abbrev pub unassigned : Slot
unassigned = record { level = room; scale = 0; power = 0; value = 0 }

abbrev pub lower : Slot → Slot
lower m = record m { level = suc m.level }

abbrev pub rescale_by : ℕ → Slot → Result Slot
rescale_by zero m = err seal_error
rescale_by (suc k) m = ok (record { level = suc m.level; scale = 30; power = k; value = m.value })

abbrev pub add_by : ℕ → Slot → Slot → Result Slot
add_by zero m n = err seal_error
add_by (suc k) m n = ok (record m { value = m.value + n.value })

abbrev pub product_of : Slot → Slot → Slot
product_of m n = record {
  level = m.level;
  scale = m.scale + n.scale;
  power = m.power + n.power;
  value = m.value * n.value;
}

abbrev pub multiply : Slot → Slot → Result Slot
multiply m n = if ltb m.level room then ok (product_of m n) else err seal_error

pub ok_inj {ℓ} : {A : Type ℓ} {a b : A} → Result.ok a ≡ ok b → a ≡ b
ok_inj e = cc

abbrev pub ideal : Seal
ideal = record {
  numbers = naturals;
  Float = ℕ;
  Scale = ℕ;
  Plaintext = Slot;
  Ciphertext = Slot;
  capacity = room;
  real = λ v. v;
  Encodable = λ v. v < 1000;
  Visible = λ v. 0 < v;
  pow2 = λ n. n;
  product = λ a b. a + b;
  rescaled = λ a l. 30;
  Nominal = λ s. s ≡ 30;
  pow2-Nominal = refl;
  rescaled-Nominal = λ a b l ha hb. refl;
  plain = λ p. p;
  NonZero = λ p. 0 < p.value;
  message = λ x. x;
  blank = unassigned;
  encode = λ v s. ok (record { level = 0; scale = s; power = 1; value = v });
  plain_mod_switch_to_next = λ p. ok (lower p);
  mod_switch_to_next = λ x. ok (lower x);
  square = λ x. ok (product_of x x);
  relinearize = λ x. ok x;
  rescale_to_next = λ x. rescale_by x.power x;
  set_scale = λ s x. record x { scale = s };
  multiply_plain = multiply;
  add = λ x y. add_by x.power x y;
  add_plain = λ x p. ok (record x { value = x.value + p.value });
  encode_lem = λ v s h. (_, refl, refl);
  encode-NonZero = λ v s p h e. omega (arith, ap (λ m. m.value) (ok_inj e));
  plain_mod_switch_to_next_lem = λ p h. (_, refl, refl);
  plain_mod_switch_to_next-NonZero = λ p q h e. omega (arith, ap (λ m. m.value) (ok_inj e));
  mod_switch_to_next_lem = λ x h. (_, refl, refl);
  square_lem = λ x h n. (_, refl, refl);
  relinearize_lem = λ x. (x, refl, refl);
  rescale_to_next_lem = λ x k h e. (_, ap (λ k. rescale_by k x) e, refl);
  rescale_to_next-blank = refl;
  set_scale_lem = λ s x. refl;
  multiply_plain_lem = λ x p e h n m nz. (product_of x p, rw (lt→ltb x.level room h) refl, refl);
  multiply_plain-blank = λ p. refl;
  add_lem = λ x y k e s px py. (_, ap (λ k. add_by k x y) px, refl);
  add-blank = λ y. refl;
  add_plain_lem = λ x p e s k. (_, refl, refl);
}
