-- ===== src/CLib/Buffers.antt =====
-- Texts in buffers: a text that is read up to its NUL, and what stands behind it.
use virtual_time_synchroniza.Prelude.{
  ℕ, suc, zero, ◌+◌, ◌≤◌, ◌<◌, ◌≡◌, ◌≢◌, refl, Bytes, [], ◌∷◌, ◌++◌, arith, take, drop, set, length,
  All,
}
use Prim.Native.Nat.add
use virtual_time_synchroniza.CLib.{c_string}

-- A text without NUL, up to a NUL behind it.
pub c_string_text : (s rest : Bytes) → All (λ c. c ≢ 0) s → c_string (s ++ (0 ∷ rest)) ≡ s
unfolding c_string
c_string_text [] rest h = refl
c_string_text (c ∷ s) rest h = ground (arith, c_string_text s rest h.1)

pub set_behind :
    (xs : Bytes) (y v : ℕ) (ys : Bytes) (k : ℕ)
    → length xs ≡ k
    → set (xs ++ (y ∷ ys)) k v ≡ xs ++ (v ∷ ys)
set_behind [] y v ys zero h = refl
set_behind [] y v ys (suc k) h = absurd (omega arith)
set_behind (x ∷ xs) y v ys zero h = absurd (omega arith)
set_behind (x ∷ xs) y v ys (suc k) h = rw (set_behind xs y v ys k (omega arith))

pub drop_past : (k n : ℕ) (xs ys : Bytes) → length xs ≡ k → drop (k + n) (xs ++ ys) ≡ drop n ys
drop_past zero n [] ys h = rw (add.zero n)
drop_past zero n (x ∷ xs) ys h = absurd (omega arith)
drop_past (suc k) n [] ys h = absurd (omega arith)
drop_past (suc k) n (x ∷ xs) ys h = rw (add.suc k n) (drop_past k n xs ys (omega arith))

-- What is left behind a text that does not fill the room.
pub drop_short :
    (n : ℕ) (ys : Bytes)
    → n < length ys
    → (y : ℕ) × (rest : Bytes) × (drop n ys ≡ y ∷ rest) × (length rest + n + 1 ≡ length ys)
drop_short n [] h = absurd (omega arith)
drop_short zero (y ∷ ys) h = (y, ys, refl, omega arith)
drop_short (suc n) (x ∷ ys) h =
    let (y, rest, e, k) = drop_short n ys (omega arith) in (y, rest, e, omega arith)

pub drop_everything : (n : ℕ) (ys : Bytes) → length ys ≡ n → drop n ys ≡ []
drop_everything zero [] h = refl
drop_everything zero (y ∷ ys) h = absurd (omega arith)
drop_everything (suc n) [] h = refl
drop_everything (suc n) (y ∷ ys) h = drop_everything n ys (omega arith)

pub length-drop : (k : ℕ) (xs : Bytes) → k ≤ length xs → k + length (drop k xs) ≡ length xs
length-drop zero xs h = omega arith
length-drop (suc k) [] h = absurd (omega arith)
length-drop (suc k) (x ∷ xs) h = omega (arith, length-drop k xs (omega arith))

pub length-take : (k : ℕ) (xs : Bytes) → k ≤ length xs → length (take k xs) ≡ k
length-take zero xs h = refl
length-take (suc k) [] h = absurd (omega arith)
length-take (suc k) (x ∷ xs) h = omega (arith, length-take k xs (omega arith))

pub length-set : (xs : Bytes) (k v : ℕ) → length (set xs k v) ≡ length xs
length-set [] k v = refl
length-set (x ∷ xs) zero v = refl
length-set (x ∷ xs) (suc k) v = omega (arith, length-set xs k v)
