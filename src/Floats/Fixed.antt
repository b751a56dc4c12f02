-- ===== src/Floats/Fixed.antt =====
-- Decimal numbers with three places, as integers: one model of `Floats`, in which the tests run and
-- the hypotheses on the floating point types hold. It has no NaN, and reads and prints whole numbers.
use virtual_time_synchroniza.Prelude.{
  ℕ, zero, suc, ◌+◌, ◌*◌, ◌/◌, ◌^◌, ◌≡◌, refl, ◌≤◌, true, false, arith, ◌==◌,
}
use virtual_time_synchroniza.Prelude.Int.{
  ℤ, pos, negsuc, ◌+ℤ◌, ◌-ℤ◌, ◌*ℤ◌, ◌/ℤ◌, ◌≤ℤ◌, ltb_ℤ, leb_ℤ, sub_ℕ, pos_part, neg_part, +ℤ_parts,
}
use virtual_time_synchroniza.CLib.{atoll, print_4ld}
use virtual_time_synchroniza.Floats.{FloatOps, Floats, IsOrdered, IsExact, IsMonotone}

abbrev pub thousandths : ℤ → ℤ
thousandths (pos n) = pos (n * 1000)
thousandths (negsuc n) = negsuc (n * 1000 + 999)

abbrev pub whole_part : ℤ → ℤ
whole_part (pos n) = pos (n / 1000)
whole_part (negsuc n) = sub_ℕ 0 (suc n / 1000)

abbrev absolute : ℤ → ℤ
absolute (pos n) = pos n
absolute (negsuc n) = pos (suc n)

unfoldable pub quotient : ℤ → ℤ → ℤ
unfolding ◌/ℤ◌
quotient x t = thousandths x /ℤ t

unfoldable pub product : ℤ → ℤ → ℤ
unfolding ◌*ℤ◌
product x y = whole_part (x *ℤ y)

unfoldable pub power : ℕ → ℤ → ℤ
unfolding product
power zero x = pos 1000
power (suc n) x = product x (power n x)

abbrev pub fixed_ops : FloatOps ℤ
fixed_ops = record {
  lt = ltb_ℤ;
  le = leb_ℤ;
  eq = λ a b. pos_part a + neg_part b == pos_part b + neg_part a;
  add = ◌+ℤ◌;
  sub = ◌-ℤ◌;
  mul = product;
  div = quotient;
  abs = absolute;
  is_nan = λ a. false;
  of_int = thousandths;
  to_int = whole_part;
  lit = λ m k. pos (m * 1000 / 10 ^ k);
}

instance abbrev pub fixed : Floats
fixed = record {
  Double = ℤ;
  LongDouble = ℤ;
  d = fixed_ops;
  l = fixed_ops;
  widen = λ x. x;
  pow = λ x y. power (pos_part (whole_part y)) x;
  atof = λ s. thousandths (atoll s);
  print = λ x. print_4ld (pos_part (whole_part x));
}

thousandths-+ℤ : (a b : ℤ) → thousandths a +ℤ thousandths b ≡ thousandths (a +ℤ b)
unfolding ◌+ℤ◌
thousandths-+ℤ (pos a) (pos b) = ground arith
thousandths-+ℤ (pos a) (negsuc b) = ground arith
thousandths-+ℤ (negsuc a) (pos b) = ground arith
thousandths-+ℤ (negsuc a) (negsuc b) = ground arith

whole_part-thousandths : (a : ℤ) → whole_part (thousandths a) ≡ a
whole_part-thousandths a = ground arith

-- Division by a positive number keeps the order.
div_mono : (x y t : ℕ) → x ≤ y → x / t ≤ y / t
div_mono x y t h = grind arith

thousandths_mono : (a b : ℤ) → a ≤ℤ b → thousandths a ≤ℤ thousandths b
thousandths_mono a b h = ground arith

/ℤ_mono : (a b : ℤ) (t : ℕ) → a ≤ℤ b → (a /ℤ pos t) ≤ℤ (b /ℤ pos t)
unfolding ◌/ℤ◌
/ℤ_mono (pos a) (pos b) t h = ground (arith, div_mono a b t)
/ℤ_mono (pos a) (negsuc b) t h = absurd (omega arith)
/ℤ_mono (negsuc a) (pos b) t h = ground arith
/ℤ_mono (negsuc a) (negsuc b) t h = ground (arith, div_mono (suc b) (suc a) t)

quotient_mono :
    (a b t : ℤ) → ltb_ℤ (pos 0) t ≡ true → a ≤ℤ b → leb_ℤ (quotient a t) (quotient b t) ≡ true
unfolding quotient
quotient_mono a b (pos t) h k =
    ground (arith, /ℤ_mono (thousandths a) (thousandths b) t (thousandths_mono a b k))
quotient_mono a b (negsuc t) h k = absurd (ground arith)

quotient-zero : (t : ℤ) → quotient (pos 0) t ≡ pos 0
unfolding quotient
quotient-zero t = ground arith

add_mono :
    (a x y : ℤ)
    → leb_ℤ x y ≡ true
    → (leb_ℤ (a +ℤ x) (a +ℤ y) ≡ true) × (leb_ℤ (x +ℤ a) (y +ℤ a) ≡ true)
add_mono a x y h = ground (arith, +ℤ_parts a x, +ℤ_parts a y, +ℤ_parts x a, +ℤ_parts y a)

pub fixed-IsOrdered : IsOrdered fixed_ops
fixed-IsOrdered = record { lt_irrefl = λ a. ground arith; lt_trans = λ a b c h k. ground arith }

pub fixed-IsExact : IsExact fixed_ops
fixed-IsExact = record {
  add_exact = λ a b fa fb fc. thousandths-+ℤ a b;
  to_int-of_int = λ a fa. whole_part-thousandths a;
  zero_div = λ t h. quotient-zero t;
}

pub fixed-IsMonotone : IsMonotone fixed_ops
fixed-IsMonotone = record {
  le_number = λ x y h. (refl, refl);
  add_number = λ x y h. (refl, refl);
  div_mono =
      λ a b t fa fb h k. quotient_mono (thousandths a) (thousandths b) t h (thousandths_mono a b k);
  add_mono_left = λ a x y hx hy h. (add_mono a x y h).0;
  add_mono_right = λ a x y hx hy h. (add_mono a x y h).1;
  of_int-InRange = λ a (lo, hi). ground arith;
  to_int_mono = λ x y hx hy h. ground arith;
}
