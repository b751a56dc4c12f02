-- ===== src/CLib.antt =====
-- What the code uses of the C library's text functions: `atoi`, `atoll`, and `sprintf` with `%4ld`.
pub mod RoundTrip
pub mod Buffers
use Prim.Native.Nat.{min}
use virtual_time_synchroniza.Prelude.{
  ℕ, zero, suc, ◌+◌, ◌-◌, ◌*◌, ◌/◌, ◌%◌, ◌^◌, ◌≤◌, ◌≡◌, refl, Bool, ◌&&◌, ◌||◌, Bytes, [], ◌∷◌,
  ◌++◌, codes, ltb, leb, ◌==◌, if◌then◌else◌, length,
}
use virtual_time_synchroniza.Prelude.Int.{ℤ, pos, negsuc, sub_ℕ, leb_ℤ}

pub is_space : ℕ → Bool
is_space c = c == 32 || (leb 9 c && leb c 13)

pub is_digit : ℕ → Bool
is_digit c = leb b'0' c && leb c b'9'

-- The number that the leading digits spell behind `n`.
pub scan_digits : Bytes → ℕ → ℕ
unfolding is_digit
scan_digits [] n = n
scan_digits (c ∷ s) n =
    let rest = scan_digits s (n * 10 + (c - b'0')) in if is_digit c then rest else n

pub skip_spaces : Bytes → Bytes
unfolding is_space
skip_spaces [] = []
skip_spaces (c ∷ s) = if is_space c then skip_spaces s else c ∷ s

-- `strtol` and `strtoll` in base ten: blanks, a sign, digits; out of range they give the nearest
-- 64-bit value.
signed : Bytes → ℤ
unfolding scan_digits
signed [] = pos 0
signed (c ∷ s) =
    if c == b'-'
    then sub_ℕ 0 (min (scan_digits s 0) (2 ^ 63))
    else if c == b'+'
    then pos (min (scan_digits s 0) (2 ^ 63 - 1))
    else pos (min (scan_digits (c ∷ s) 0) (2 ^ 63 - 1))

unfoldable pub atoll : Bytes → ℤ
unfolding signed skip_spaces
atoll s = signed (skip_spaces s)

-- The low 32 bits of a 64-bit number, as an `int`.
pub to_int32 : ℤ → ℤ
to_int32 (pos n) = let w = n % 2 ^ 32 in if ltb w (2 ^ 31) then pos w else negsuc (2 ^ 32 - w - 1)
to_int32 (negsuc n) =
    let w = n % 2 ^ 32 in if ltb w (2 ^ 31) then negsuc w else pos (2 ^ 32 - w - 1)

-- `atoi` is `(int) strtol(s, NULL, 10)`.
unfoldable pub atoi : Bytes → ℤ
unfolding atoll to_int32
atoi s = to_int32 (atoll s)

-- A C string: the bytes before the first NUL.
unfoldable pub c_string : Bytes → Bytes
c_string [] = []
c_string (c ∷ s) = let rest = c_string s in if c == 0 then [] else c ∷ rest

-- The decimal digits of a number, with fuel for its digits; twenty cover 64 bits.
pub digits : ℕ → ℕ → Bytes → Bytes
digits zero n out = out
digits (suc f) n out =
    let rest = digits f (n / 10) ((b'0' + n % 10) ∷ out) in
    if leb n 9 then (b'0' + n) ∷ out else rest

pub pad : ℕ → Bytes → Bytes
pad zero s = s
pad (suc n) s = 32 ∷ pad n s

-- `%4ld`: right-aligned in four columns at least.
unfoldable pub print_4ld : ℕ → Bytes
unfolding digits pad
print_4ld n = let s = digits 20 n [] in pad (4 - length s) s

-- `ostream << long long`: a sign where the number is negative, and its decimal digits.
unfoldable pub print_lld : ℤ → Bytes
unfolding digits
print_lld (pos n) = digits 20 n []
print_lld (negsuc n) = b'-' ∷ digits 20 (suc n) []

atoi_tests :
    (atoi (codes "  12ab") ≡ pos 12)
    × (atoi (codes "-7") ≡ negsuc 6)
    × (atoi (codes "0010") ≡ pos 10)
    × (atoi (codes "x") ≡ pos 0)
    × (atoi (codes "4294967295") ≡ negsuc 0)
unfolding atoi
atoi_tests = (refl, refl, refl, refl, refl)

print_tests : (print_4ld 7 ≡ codes "   7") × (print_4ld 12345 ≡ codes "12345")
unfolding print_4ld
print_tests = (refl, refl)
