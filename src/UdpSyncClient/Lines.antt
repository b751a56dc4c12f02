-- ===== src/UdpSyncClient/Lines.antt =====
-- What the loop makes of its input, and what a server makes of that.
use virtual_time_synchroniza.Prelude.{
  ℕ, zero, suc, ◌+◌, ◌<◌, ◌≤◌, ◌≡◌, ◌≢◌, refl, true, false, Bytes, List, [], ◌∷◌, ◌++◌,
  append_assoc, append-nil, none, some, ap, ◌∙◌, ◌==◌, arith, All, length,
}
use virtual_time_synchroniza.CLib.{c_string}
use virtual_time_synchroniza.CLib.Buffers.{c_string_text}
use virtual_time_synchroniza.RawMessage.Header.{take_all}
use virtual_time_synchroniza.UdpSyncClient.{UdpSyncClient, send_to, send_to_buffer}
use virtual_time_synchroniza.UdpSyncClient.Main.{Input, max_length, take_line, getline, send_lines}

-- A line without newline and NUL that `getline` takes whole.
pub record IsLine (line : Bytes) : Type 0 where
  pub no_newline : All (λ c. c ≢ 10) line
  pub no_nul : All (λ c. c ≢ 0) line
  pub fits : length line < max_length

-- The input that consists of the lines.
abbrev pub typed : List Bytes → Bytes
typed [] = []
typed (line ∷ lines) = line ++ (10 ∷ typed lines)

abbrev pub blanks : ℕ → List Bytes
blanks zero = []
blanks (suc n) = [] ∷ blanks n

take_line_whole :
    (n : ℕ) (line rest : Bytes)
    → All (λ c. c ≢ 10) line
    → length line ≤ n
    → take_line n (line ++ (10 ∷ rest)) ≡ (line, record { rest = rest; is_good = true })
unfolding take_line
take_line_whole zero [] rest h k = refl
take_line_whole (suc n) [] rest h k = refl
take_line_whole zero (c ∷ line) rest h k = absurd (omega arith)
take_line_whole (suc n) (c ∷ line) rest h k =
    let other : (c == 10) ≡ false = ground (arith, h.0) in
    rw (other, take_line_whole n line rest h.1 (omega arith)) refl

-- A round sends the text that is read.
send_text :
    (text : Bytes) (c : UdpSyncClient)
    → All (λ b. b ≢ 0) text
    → c.is_open ≡ true
    → send_to_buffer (text ++ (0 ∷ [])) (length (c_string (text ++ (0 ∷ [])))) c
      ≡ some (record c { sent = c.sent ++ (text ∷ []) })
unfolding send_to_buffer send_to
send_text text c clean is_open =
    rw (c_string_text text [] clean, take_all (length text) text (0 ∷ []) refl, is_open) refl

abbrev pub ready : Bytes → Input
ready s = record { rest = s; is_good = true }

abbrev pub spent : Bytes → Input
spent s = record { rest = s; is_good = false }

abbrev pub with_sent : UdpSyncClient → List Bytes → UdpSyncClient
with_sent c ds = record c { sent = c.sent ++ ds }

send_round :
    (k : ℕ) (input input' : Input) (text : Bytes) (c : UdpSyncClient)
    → getline max_length input ≡ (text, input')
    → All (λ b. b ≢ 0) text
    → c.is_open ≡ true
    → send_lines (suc k) input c ≡ send_lines k input' (with_sent c (text ∷ []))
unfolding send_lines
send_round k input input' text c read clean is_open =
    ap
      (λ r. elim (send_to_buffer (r.0 ++ (0 ∷ [])) (length (c_string (r.0 ++ (0 ∷ [])))) c) [
        | none ↦ none
        | some c' ↦ send_lines k (r.1) c'
      ])
      read
    ∙ rw (send_text text c clean is_open) refl

-- A round that reads nothing and leaves an input that is good no longer, and the rounds that follow it.
send_blanks :
    (k : ℕ) (input : Input) (s : Bytes) (c : UdpSyncClient)
    → getline max_length input ≡ ([], spent s)
    → c.is_open ≡ true
    → send_lines k input c ≡ some (with_sent c (blanks k))
unfolding send_lines
send_blanks zero input s c read is_open = rw (append-nil c.sent) refl
send_blanks (suc k) input s c read is_open =
    send_round k input (spent s) [] c read tt is_open
    ∙ send_blanks k (spent s) s (with_sent c ([] ∷ [])) (unfold getline in refl) is_open
    ∙ rw (append_assoc c.sent ([] ∷ []) (blanks k)) refl

read_end : getline max_length (ready []) ≡ ([], spent [])
unfolding getline take_line
read_end = refl

-- The rounds of the loop on an input that consists of lines, which are fewer than the rounds by `k`: they send
-- the lines, one by one, and then nothing but empty datagrams.
pub send_lines_lem :
    (lines : List Bytes) (rounds k : ℕ) (c : UdpSyncClient)
    → rounds ≡ length lines + k
    → All IsLine lines
    → c.is_open ≡ true
    → send_lines rounds (ready (typed lines)) c ≡ some (with_sent c (lines ++ blanks k))
send_lines_lem [] rounds k c count ok is_open =
    let at : rounds ≡ k = omega arith in rw at (send_blanks k (ready []) [] c read_end is_open)
send_lines_lem (line ∷ lines) zero k c count ok is_open = absurd (omega arith)
send_lines_lem (line ∷ lines) (suc rounds) k c count ok is_open =
    let room : length line ≤ 1023 = omega (arith, ok.0.fits) in
    send_round rounds (ready (line ++ (10 ∷ typed lines))) (ready (typed lines)) line c
      (unfold getline in take_line_whole 1023 line (typed lines) ok.0.no_newline room) ok.0.no_nul
      is_open
    ∙ send_lines_lem lines rounds k (with_sent c (line ∷ [])) (omega arith) ok.1 is_open
    ∙ rw (append_assoc c.sent (line ∷ []) (lines ++ blanks k)) refl
