-- ===== src/RawMessage.antt =====
-- virtualagent/net/RawMessage.hpp: a message on the wire, four characters with the length of the body
-- and then the body, in a buffer of a fixed size.
pub mod Header
pub mod Tests
use virtual_time_synchroniza.Prelude.{
  ℕ, ◌+◌, ◌-◌, ◌%◌, ◌^◌, Bool, true, false, Bytes, ◌++◌, ltb, if◌then◌else◌, take, drop,
}
use virtual_time_synchroniza.Prelude.Int.{ℤ, pos, negsuc}
use virtual_time_synchroniza.CLib.{atoi, print_4ld, c_string}

abbrev pub header_length : ℕ
header_length = 4

abbrev pub max_body_length : ℕ
max_body_length = 512

-- `contents` is `data_`, of `header_length + max_body_length` bytes.
pub record RawMessage : Type 0 where
  pub contents : Bytes
  pub body_length : ℕ

-- `length`
unfoldable pub frame_length : RawMessage → ℕ
frame_length m = header_length + m.body_length

-- `body`
unfoldable pub body : RawMessage → Bytes
body m = drop header_length m.contents

-- The setter `body_length`.
unfoldable pub set_body_length : ℕ → RawMessage → RawMessage
set_body_length new_length m = record m {
  body_length = if ltb max_body_length new_length then max_body_length else new_length;
}

-- An `int` as a `size_t`.
unfoldable pub to_size : ℤ → ℕ
to_size (pos n) = n
to_size (negsuc n) = 2 ^ 64 - 1 - n

-- `strncat` copies up to four characters, and stops at a NUL.
unfoldable pub decode_header : RawMessage → RawMessage × Bool
unfolding to_size
decode_header m =
    let n = to_size (atoi (c_string (take header_length m.contents))) in
    if ltb max_body_length n
    then (record m { body_length = 0 }, false)
    else (record m { body_length = n }, true)

-- `sprintf` with `%4ld`, and `memcpy` of the first four characters.
unfoldable pub encode_header : RawMessage → RawMessage
encode_header m = record m {
  contents = take header_length (print_4ld m.body_length) ++ drop header_length m.contents;
}
