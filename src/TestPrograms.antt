-- ===== src/TestPrograms.antt =====
-- The programs by which the servers are tried alone: the thread `printDb` of virtualagent/net/UdpAsyncServerMain.cpp
-- and virtualagent/net/TcpAsyncServerMain.cpp, which prints a table every second, and the server of
-- virtualagent/net/UdpDatatimeServer.cpp, which prints what it receives.
mod Prints
mod Tests
use virtual_time_synchroniza.Prelude.{
  ℕ, suc, Bool, true, false, ◌||◌, Bytes, List, [], ◌∷◌, ◌++◌, Option, none, some, Outcome, done,
  crash, out_of_range, ◌>>=◌, ◌==◌, codes, if◌then◌else◌, length, drop,
}
use virtual_time_synchroniza.Prelude.Int.{pos}
use virtual_time_synchroniza.CLib.{c_string, print_lld}
use virtual_time_synchroniza.Floats.{Floats}
use virtual_time_synchroniza.TdfTable
use virtual_time_synchroniza.IfaceTable
use virtual_time_synchroniza.IfaceTable.{InterfaceAttributeTable}

-- The rounds of `printDb` from a count on, over the tables that they find; `print` is the table's.
unfoldable pub print_db {ℓ} : {T : Type ℓ} → (T → Outcome Bytes) → ℕ → List T → Outcome Bytes
print_db print count [] = done []
print_db print count (t ∷ ts) = print t >>= λ table. print_db print (suc count) ts >>= λ rest.
    done (codes "----->count = " ++ (print_lld (pos count) ++ (10 ∷ (table ++ rest))))

-- The thread of virtualagent/net/TcpAsyncServerMain.cpp.
unfoldable pub print_interfaces : ℕ → List InterfaceAttributeTable → Outcome Bytes
unfolding print_db
print_interfaces = print_db IfaceTable.print

-- The thread of virtualagent/net/UdpAsyncServerMain.cpp.
unfoldable pub print_tdfs : ⦃fl : Floats⦄ → ℕ → List TdfTable.TdfTable → Outcome Bytes
unfolding print_db
print_tdfs = print_db TdfTable.print

-- `MAX_BUFFER_SIZE`
abbrev pub max_buffer_size : ℕ
max_buffer_size = 512

-- How a receive ends.
pub data Received : Type 0 where
  succeeds too_large fails : Received

pub record DatatimeServer : Type 0 where
  pub recv_buffer : Bytes
  pub is_receiving : Bool
  pub output : Bytes

-- Whether a buffer holds a NUL.
unfoldable pub has_nul : Bytes → Bool
has_nul [] = false
has_nul (c ∷ s) = let rest = has_nul s in if c == 0 then true else rest

-- `cout << recvBuffer_`: the characters up to the NUL, which has to be there.
unfoldable pub printed : Bytes → Outcome Bytes
printed buffer = if has_nul buffer then done (c_string buffer) else crash out_of_range

-- `handleReceive`: the receive has stored `received` at the start of the buffer, and puts no NUL behind it.
-- The text is printed whether the receive failed or not, and the next one is asked for unless it
-- failed. The answer, the time of day, is made and not sent.
unfoldable pub handle_receive : Received → Bytes → DatatimeServer → Outcome DatatimeServer
handle_receive how received s =
    let buffer = received ++ drop (length received) s.recv_buffer in
    printed buffer >>= λ text. done (record {
      recv_buffer = buffer;
      is_receiving = elim how [ fails ↦ false | _ ↦ true ];
      output = s.output ++ (codes "recvBuffer_ = " ++ (text ++ (10 ∷ [])));
    })
