-- ===== src/TestPrograms/Tests.antt =====
-- Runs of the programs that print.
use virtual_time_synchroniza.Prelude.{
  ◌≡◌, refl, true, false, [], ◌∷◌, ◌++◌, done, crash, null_pointer, none, some, codes,
}
use virtual_time_synchroniza.Prelude.Int.{pos}
use virtual_time_synchroniza.CLib.{print_lld, print_4ld, c_string}
use virtual_time_synchroniza.Floats.Fixed.{fixed}
use virtual_time_synchroniza.IfaceTable
use virtual_time_synchroniza.IfaceTable.{new_entry}
use virtual_time_synchroniza.TdfTable.{print_entries, print}
use virtual_time_synchroniza.TdfTable.Tests.{two_hosts}
use virtual_time_synchroniza.TestPrograms.{
  fails, DatatimeServer, has_nul, printed, print_db, print_tdfs, handle_receive,
}

print_tdfs_run :
    print_tdfs 7 (two_hosts ∷ [])
    ≡ done (
        codes "----->count = 7"
        ++ (10 ∷ (codes "terran:    3" ++ (10 ∷ (codes "zerg:    5" ++ (10 ∷ []))))))
unfolding print_tdfs print_db print print_entries print_lld print_4ld
print_tdfs_run = refl

interfaces_run :
    (IfaceTable.print ((codes "eth0", some (new_entry (pos 1000) (pos 20))) ∷ [])
      ≡ done (codes "eth0: 1000, 20" ++ (10 ∷ [])))
    × (IfaceTable.print ((codes "eth0", none) ∷ []) ≡ crash null_pointer)
unfolding IfaceTable.print print_lld
interfaces_run = (refl, refl)

-- What an earlier datagram left is printed behind a shorter one.
abbrev before : DatatimeServer
before = record { recv_buffer = codes "0010|zerg|3" ++ (0 ∷ []); is_receiving = true; output = [] }

leftover :
    handle_receive fails (codes "21") before
    ≡ done (record {
      recv_buffer = codes "2110|zerg|3" ++ (0 ∷ []);
      is_receiving = false;
      output = codes "recvBuffer_ = 2110|zerg|3" ++ (10 ∷ []);
    })
unfolding handle_receive printed has_nul c_string
leftover = refl
