-- ===== src/Floats.antt =====
-- The two floating point types of the code, `double` and `long double`, with the operations that
-- the code makes on them, and the two C library functions and the one printer that have no exact
-- description over whole numbers: `pow`, `atof` and `ostream <<`. The types belong to the platform,
-- so they are an instance argument of the model.
pub mod Fixed
use virtual_time_synchroniza.Prelude.{ℕ, ◌≡◌, Bool, true, false, Bytes, ◌-◌, ◌^◌}
use virtual_time_synchroniza.Prelude.Int.{ℤ, pos, negsuc, ◌+ℤ◌, ◌≤ℤ◌}

pub record FloatOps (F : Type 0) : Type 0 where
  -- Comparisons, which are false where an operand is NaN.
  pub lt : F → F → Bool
  pub le : F → F → Bool
  pub eq : F → F → Bool
  pub add : F → F → F
  pub sub : F → F → F
  pub mul : F → F → F
  pub div : F → F → F
  pub abs : F → F
  pub is_nan : F → Bool
  -- The conversion of an integer, and the one to a 64-bit integer, which drops the fraction.
  pub of_int : ℤ → F
  pub to_int : F → ℤ
  -- `lit m k` is the literal m / 10 ^ k.
  pub lit : ℕ → ℕ → F

pub record Floats : Type 1 where
  pub Double : Type 0
  pub LongDouble : Type 0
  pub d : FloatOps Double
  pub l : FloatOps LongDouble
  pub widen : Double → LongDouble
  pub pow : Double → Double → Double
  pub atof : Bytes → Double
  pub print : LongDouble → Bytes

-- The order laws of IEEE 754 that hold of every value, NaN included.
pub record IsOrdered {F : Type 0} (o : FloatOps F) : Type 0 where
  pub lt_irrefl : (a : F) → o.lt a a ≡ false
  pub lt_trans : (a b c : F) → o.lt a b ≡ true → o.lt b c ≡ true → o.lt a c ≡ true

-- `long double` holds every 64-bit integer exactly (its significand has 64 bits), so sums of
-- integers whose result is a 64-bit integer are exact, and so is the way back.
abbrev pub FitsInt64 : ℤ → Type 0
FitsInt64 a = (negsuc (2 ^ 63 - 1) ≤ℤ a) × (a ≤ℤ pos (2 ^ 63 - 1))

pub record IsExact {F : Type 0} (o : FloatOps F) : Type 0 where
  pub add_exact :
      (a b : ℤ)
      → FitsInt64 a
      → FitsInt64 b
      → FitsInt64 (a +ℤ b)
      → o.add (o.of_int a) (o.of_int b) ≡ o.of_int (a +ℤ b)
  pub to_int-of_int : (a : ℤ) → FitsInt64 a → o.to_int (o.of_int a) ≡ a
  -- Zero divided by a positive number, infinity included, is zero.
  pub zero_div :
      (t : F) → o.lt (o.of_int (pos 0)) t ≡ true → o.div (o.of_int (pos 0)) t ≡ o.of_int (pos 0)

-- The conversion to a 64-bit integer is defined: what is left without the fraction fits. NaN and the
-- infinities are not in range.
abbrev pub InRange : {F : Type 0} → FloatOps F → F → Type 0
InRange o x =
    (o.le (o.of_int (negsuc (2 ^ 63 - 1))) x ≡ true) × (o.lt x (o.of_int (pos (2 ^ 63))) ≡ true)

-- The laws of IEEE 754 on the order. A comparison that holds has no NaN on either side, and what is
-- made from NaN is NaN. Division by a positive number keeps the order of finite numbers, rounding keeps it
-- in a sum unless a sum of the infinities is NaN, and the conversion keeps it where it is defined.
pub record IsMonotone {F : Type 0} (o : FloatOps F) : Type 0 where
  pub le_number : (x y : F) → o.le x y ≡ true → (o.is_nan x ≡ false) × (o.is_nan y ≡ false)
  pub add_number :
      (x y : F) → o.is_nan (o.add x y) ≡ false → (o.is_nan x ≡ false) × (o.is_nan y ≡ false)
  pub div_mono :
      (a b : ℤ) (t : F)
      → FitsInt64 a
      → FitsInt64 b
      → o.lt (o.of_int (pos 0)) t ≡ true
      → a ≤ℤ b
      → o.le (o.div (o.of_int a) t) (o.div (o.of_int b) t) ≡ true
  pub add_mono_left :
      (a x y : F)
      → o.is_nan (o.add a x) ≡ false
      → o.is_nan (o.add a y) ≡ false
      → o.le x y ≡ true
      → o.le (o.add a x) (o.add a y) ≡ true
  pub add_mono_right :
      (a x y : F)
      → o.is_nan (o.add x a) ≡ false
      → o.is_nan (o.add y a) ≡ false
      → o.le x y ≡ true
      → o.le (o.add x a) (o.add y a) ≡ true
  pub of_int-InRange : (a : ℤ) → FitsInt64 a → InRange o (o.of_int a)
  pub to_int_mono :
      (x y : F) → InRange o x → InRange o y → o.le x y ≡ true → o.to_int x ≤ℤ o.to_int y
