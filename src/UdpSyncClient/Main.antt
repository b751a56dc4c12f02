-- ===== src/UdpSyncClient/Main.antt =====
-- The loop of `main` in virtualagent/net/UdpSyncClientMain.cpp, over an input that is known from the start.
use virtual_time_synchroniza.Prelude.{
  ℕ, zero, suc, ◌-◌, Bool, true, false, Bytes, [], ◌∷◌, ◌++◌, Option, none, some, ◌==◌,
  if◌then◌else◌, length,
}
use virtual_time_synchroniza.CLib.{c_string}
use virtual_time_synchroniza.UdpSyncClient.{UdpSyncClient, send_to_buffer}

-- `MAX_LENGTH`, the size of `request`.
abbrev pub max_length : ℕ
max_length = 1024

-- What is left of `std::cin`, and whether its state is good.
pub record Input : Type 0 where
  pub rest : Bytes
  pub is_good : Bool

-- The characters up to a newline, which is taken off the input, but no more than `n`. The state is good
-- no longer at the end of the input, or where the newline does not come in time.
unfoldable pub take_line : ℕ → Bytes → Bytes × Input
take_line n [] = ([], record { rest = []; is_good = false })
take_line zero (c ∷ s) =
    if c == 10
    then ([], record { rest = s; is_good = true })
    else ([], record { rest = c ∷ s; is_good = false })
take_line (suc n) (c ∷ s) =
    let more = take_line n s in
    if c == 10 then ([], record { rest = s; is_good = true }) else (c ∷ more.0, more.1)

-- `std::cin.getline(request, size)`: the text that it stores, before the NUL, and the new state.
unfoldable pub getline : ℕ → Input → Bytes × Input
getline size input = if input.is_good then take_line (size - 1) input.rest else ([], input)

-- The first rounds of the loop, which has no end of its own but the exception of a send.
unfoldable pub send_lines : ℕ → Input → UdpSyncClient → Option UdpSyncClient
send_lines zero input c = some c
send_lines (suc rounds) input c =
    let read = getline max_length input in
    let request = read.0 ++ (0 ∷ []) in
    elim (send_to_buffer request (length (c_string request)) c) [
      | none ↦ none
      | some c' ↦ send_lines rounds (read.1) c'
    ]
