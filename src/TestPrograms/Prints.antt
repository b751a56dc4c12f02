-- ===== src/TestPrograms/Prints.antt =====
-- When the programs print, and when they read what is not there.
use virtual_time_synchroniza.Prelude.{
  ℕ, suc, ◌≡◌, ◌≢◌, refl, false, Bytes, List, [], ◌∷◌, none, some, done, crash, null_pointer,
  out_of_range, arith, All, length, append-nil,
}
use virtual_time_synchroniza.CLib.Buffers.{drop_everything}
use virtual_time_synchroniza.Floats.{Floats}
use virtual_time_synchroniza.OrderedMap.{find}
use virtual_time_synchroniza.TdfTable.{TdfMap, TdfTable, print_entries, print}
use virtual_time_synchroniza.TdfTable.Max.{HasNoNull}
use virtual_time_synchroniza.TestPrograms.{
  print_db, print_tdfs, max_buffer_size, Received, DatatimeServer, has_nul, printed, handle_receive,
}

module _ ⦃fl : Floats⦄ where
  -- A table without null pointers is printed.
  print_entries-prints : (m : TdfMap) → HasNoNull m → (s : Bytes) × (print_entries m ≡ done s)
  unfolding print_entries
  print_entries-prints [] h = ([], refl)
  print_entries-prints ((k, none) ∷ m) h = absurd h.0
  print_entries-prints ((k, some e) ∷ m) h =
      let (s, run) = print_entries-prints m h.1 in rw run (_, refl)

  -- A table with a null pointer is not.
  print_entries-null :
      (k : Bytes) (m : TdfMap) → find k m ≡ some none → print_entries m ≡ crash null_pointer
  unfolding print_entries find
  print_entries-null k [] f = absurd (ground arith)
  print_entries-null k ((j, none) ∷ m) f = refl
  print_entries-null k ((j, some e) ∷ m) f = ground (arith, print_entries-null k m)

  -- The printing thread goes on as long as the tables that it finds hold no null pointer.
  print_tdfs-prints :
      (ts : List TdfTable) (count : ℕ)
      → All (λ t. HasNoNull t.tdf_map) ts
      → (s : Bytes) × (print_tdfs count ts ≡ done s)
  unfolding print_tdfs print_db print
  print_tdfs-prints [] count h = ([], refl)
  print_tdfs-prints (t ∷ ts) count h =
      let (s, run) = print_entries-prints t.tdf_map h.0 in
      let (more, runs) = print_tdfs-prints ts (suc count) h.1 in rw (run, runs) (_, refl)

no_nul-in : (s : Bytes) → All (λ c. c ≢ 0) s → has_nul s ≡ false
unfolding has_nul
no_nul-in [] h = refl
no_nul-in (c ∷ s) h = ground (arith, no_nul-in s h.1)

-- A datagram that fills the buffer of the datatime server and holds no NUL makes it read behind the buffer.
handle_receive_full :
    (how : Received) (received : Bytes) (s : DatatimeServer)
    → All (λ c. c ≢ 0) received
    → length received ≡ max_buffer_size
    → length s.recv_buffer ≡ max_buffer_size
    → handle_receive how received s ≡ crash out_of_range
unfolding handle_receive printed
handle_receive_full how received s clean full size =
    rw
      (
        drop_everything (length received) s.recv_buffer (omega (arith, full, size)),
        append-nil received,
        no_nul-in received clean,
      )
      refl
