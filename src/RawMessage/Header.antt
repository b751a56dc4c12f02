-- ===== src/RawMessage/Header.antt =====
-- What `decode_header` accepts, and that it reads what `encode_header` wrote.
use virtual_time_synchroniza.Prelude.{
  ℕ, suc, zero, ◌≤◌, ◌≡◌, refl, ◌⊎◌, inl, inr, true, false, Bytes, List, [], ◌∷◌, ◌++◌, arith, take,
  drop, length, ltb, Bool-cases,
}
use virtual_time_synchroniza.CLib.{atoi, print_4ld, c_string}
use virtual_time_synchroniza.CLib.RoundTrip.{atoi-print_4ld}
use virtual_time_synchroniza.RawMessage.{
  RawMessage, header_length, max_body_length, to_size, decode_header, encode_header,
}

pub take_all {ℓ} : {A : Type ℓ} (k : ℕ) (xs ys : List A) → length xs ≡ k → take k (xs ++ ys) ≡ xs
take_all zero [] ys h = refl
take_all zero (x ∷ xs) ys h = absurd (omega arith)
take_all (suc k) [] ys h = absurd (omega arith)
take_all (suc k) (x ∷ xs) ys h = rw (take_all k xs ys (omega arith))

pub drop_all {ℓ} : {A : Type ℓ} (k : ℕ) (xs ys : List A) → length xs ≡ k → drop k (xs ++ ys) ≡ ys
drop_all zero [] ys h = refl
drop_all zero (x ∷ xs) ys h = absurd (omega arith)
drop_all (suc k) [] ys h = absurd (omega arith)
drop_all (suc k) (x ∷ xs) ys h = drop_all k xs ys (omega arith)

pub take_whole : (k : ℕ) (xs : Bytes) → length xs ≡ k → take k xs ≡ xs
take_whole zero [] h = refl
take_whole zero (x ∷ xs) h = absurd (omega arith)
take_whole (suc k) [] h = absurd (omega arith)
take_whole (suc k) (x ∷ xs) h = rw (take_whole k xs (omega arith))

-- The header that a message carries after `encode_header`.
pub take-encode_header :
    (m : RawMessage)
    → m.body_length ≤ max_body_length
    → (take header_length (encode_header m).contents ≡ print_4ld m.body_length)
      × (drop header_length (encode_header m).contents ≡ drop header_length m.contents)
unfolding encode_header
take-encode_header m h =
    let (_, four, _) = atoi-print_4ld m.body_length h in
    let all = take_whole header_length (print_4ld m.body_length) four in
    rw all (take_all 4 _ _ four, drop_all 4 _ _ four)

-- `decode_header` reads the length back that `encode_header` wrote, for every length that the setter
-- of the length allows, and leaves the message as it is.
pub decode_header-encode_header :
    (m : RawMessage)
    → m.body_length ≤ max_body_length
    → decode_header (encode_header m) ≡ (encode_header m, true)
unfolding decode_header to_size
decode_header-encode_header m h =
    let (back, _, whole) = atoi-print_4ld m.body_length h in
    rw ((take-encode_header m h).0, whole, back) (unfold encode_header in ground arith)

-- Whatever four bytes arrive, the length stays within the buffer. The header is refused, with the
-- length set to zero, exactly where its number is not from 0 to 512; the buffer is not touched.
pub decode_header_bounds :
    (m : RawMessage)
    → ((decode_header m).0.body_length ≤ max_body_length)
      × ((decode_header m).0.contents ≡ m.contents)
      × (((n : ℕ) × (n ≤ max_body_length)
            × (to_size (atoi (c_string (take header_length m.contents))) ≡ n)
            × (decode_header m ≡ (record m { body_length = n }, true)))
          ⊎ ((suc max_body_length ≤ to_size (atoi (c_string (take header_length m.contents))))
              × (decode_header m ≡ (record m { body_length = 0 }, false))))
unfolding decode_header
decode_header_bounds m =
    elim (Bool-cases
      (ltb max_body_length (to_size (atoi (c_string (take header_length m.contents)))))) [
        | inl big ↦ rw big (omega arith, refl, inr (ground arith, refl))
        | inr small ↦ rw small (ground arith, refl, inl (_, ground arith, refl, refl))
      ]
