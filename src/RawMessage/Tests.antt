-- ===== src/RawMessage/Tests.antt =====
-- The theorems on message headers at a concrete message.
use virtual_time_synchroniza.Prelude.{◌≡◌, true, codes, arith}
use virtual_time_synchroniza.RawMessage.{RawMessage, decode_header, encode_header}
use virtual_time_synchroniza.RawMessage.Header.{decode_header-encode_header}

abbrev pub hello : RawMessage
hello = record { contents = codes "....hello"; body_length = 5 }

decode_header-encode_header_example :
    decode_header (encode_header hello) ≡ (encode_header hello, true)
decode_header-encode_header_example = decode_header-encode_header hello (omega arith)
