-- ===== src/CLib/RoundTrip.antt =====
-- `atoi` reads back what `%4ld` printed, for every number that a message header can hold.
use virtual_time_synchroniza.Prelude.{
  ℕ, zero, suc, ◌≤◌, ◌<◌, ◌≡◌, refl, Bool, true, false, ◌&&◌, arith, Bytes, [], ◌∷◌, ◌==◌, length,
}
use virtual_time_synchroniza.Prelude.Int.{ℤ, pos, negsuc}
use virtual_time_synchroniza.CLib.{atoi, print_4ld, c_string}

-- The test holds of every number under the bound.
passes : (ℕ → Bool) → ℕ → Bool
passes test zero = true
passes test (suc bound) = passes test bound && test bound

test-passes : (test : ℕ → Bool) (bound n : ℕ) → n < bound → passes test bound ≡ true → test n ≡ true
unfolding passes
test-passes test zero n under all = absurd (omega arith)
test-passes test (suc bound) n under all = ground (arith, test-passes test bound n)

abbrev is_pos : ℤ → ℕ → Bool
is_pos (pos m) n = m == n
is_pos (negsuc m) n = false

is_pos→eq : (z : ℤ) (n : ℕ) → is_pos z n ≡ true → z ≡ pos n
is_pos→eq (pos m) n h = ground arith
is_pos→eq (negsuc m) n h = cc

abbrev same_bytes : Bytes → Bytes → Bool
same_bytes [] [] = true
same_bytes [] (b ∷ t) = false
same_bytes (a ∷ s) [] = false
same_bytes (a ∷ s) (b ∷ t) = (a == b) && same_bytes s t

same_bytes→eq : (s t : Bytes) → same_bytes s t ≡ true → s ≡ t
same_bytes→eq [] [] h = refl
same_bytes→eq [] (b ∷ t) h = cc
same_bytes→eq (a ∷ s) [] h = cc
same_bytes→eq (a ∷ s) (b ∷ t) h = ground (arith, same_bytes→eq s t)

reads_back : ℕ → Bool
reads_back n =
    is_pos (atoi (print_4ld n)) n
    && ((length (print_4ld n) == 4) && same_bytes (c_string (print_4ld n)) (print_4ld n))

table : passes reads_back 513 ≡ true
unfolding passes reads_back atoi print_4ld c_string
table = refl

-- The print of a number up to 512 has four characters, no NUL among them, and is read back.
pub atoi-print_4ld :
    (n : ℕ)
    → n ≤ 512
    → (atoi (print_4ld n) ≡ pos n)
      × (length (print_4ld n) ≡ 4)
      × (c_string (print_4ld n) ≡ print_4ld n)
atoi-print_4ld n h =
    let ok : reads_back n ≡ true = test-passes reads_back 513 n (omega arith) table in
    unfold reads_back in
    (is_pos→eq _ n (ground arith), ground arith, same_bytes→eq _ _ (ground arith))
