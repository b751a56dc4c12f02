-- ===== src/UdpAsyncServer/Tests.antt =====
-- The theorems on datagrams at concrete ones.
use virtual_time_synchroniza.Prelude.{
  Bool, true, not, ◌&&◌, ◌==◌, ◌++◌, if◌then◌else◌, ℕ, zero, suc, ◌≡◌, ◌≢◌, refl, false, Bytes,
  List, [], ◌∷◌, some, done, crash, out_of_range, codes, arith, length, All,
}
use virtual_time_synchroniza.Prelude.Int.{pos}
use virtual_time_synchroniza.Floats.Fixed.{fixed, fixed-IsOrdered}
use virtual_time_synchroniza.OrderedMap.{find}
use virtual_time_synchroniza.TdfTable.Update.{Adopts}
use virtual_time_synchroniza.Agent.{Agent, IsValid}
use virtual_time_synchroniza.Message.Tests.{agent, agent-IsValid}
use virtual_time_synchroniza.CpuMonitor.{message}
use virtual_time_synchroniza.UdpAsyncServer.{handle_receive_from, max_length}
use virtual_time_synchroniza.UdpAsyncServer.Receive.{
  handle_receive_from-message, handle_receive_from_full,
}

-- A text of `n` equal characters.
abbrev pub fill : ℕ → Bytes
fill zero = []
fill (suc n) = 65 ∷ fill n

pub length-fill : (n : ℕ) → length (fill n) ≡ n
length-fill zero = refl
length-fill (suc n) = omega (arith, length-fill n)

-- A splitting at the bars.
abbrev pub add_to_first : List Bytes → Bytes → List Bytes
add_to_first [] front = front ∷ []
add_to_first (t ∷ ts) front = (front ++ t) ∷ ts

abbrev pub at_bars : Bytes → List Bytes
at_bars [] = [] ∷ []
at_bars (c ∷ s) = if c == 124 then [] ∷ at_bars s else add_to_first (at_bars s) (c ∷ [])

-- A text without a character, by a test.
abbrev pub has_no : ℕ → Bytes → Bool
has_no x [] = true
has_no x (c ∷ s) = not (c == x) && has_no x s

pub clean_lem : (x : ℕ) (s : Bytes) → has_no x s ≡ true → All (λ c. c ≢ x) s
clean_lem x [] h = tt
clean_lem x (c ∷ s) h = (ground arith, clean_lem x s (ground arith))

pub at_bars-some : (m : Bytes) → at_bars m ≢ []
at_bars-some [] = λ e. cc
at_bars-some (c ∷ s) = λ e. ground (arith, at_bars-some s)

abbrev three_parts : Bytes → List Bytes
three_parts m = codes "0010" ∷ codes "zerg" ∷ fixed.print (pos 3600) ∷ []

clean : All (λ c. c ≢ 0) (message (codes "zerg") (pos 3600))
unfolding message virtual_time_synchroniza.CLib.print_4ld
clean = (cc, (cc, (cc, (cc, (cc, (cc, (cc, (cc, (cc, (cc, (cc, (cc, (cc, (cc, tt))))))))))))))

handle_receive_from-message_example :
    (buffer : Bytes) × (a' : Agent) × (handle_receive_from three_parts false
        (message (codes "zerg") (pos 3600))
        (fill 1024)
        agent
      ≡ done (buffer, a'))
    × (length buffer ≡ max_length)
    × IsValid a'
    × (find (codes "zerg") a'.tdf_table.tdf_map
        ≡ some (some (record { base_tdf = fixed.widen (fixed.atof (fixed.print (pos 3600))) })))
    × Adopts agent.config agent.tdf_table a'.tdf_table
unfolding message virtual_time_synchroniza.CLib.print_4ld
handle_receive_from-message_example =
    handle_receive_from-message three_parts fixed-IsOrdered (codes "zerg") (pos 3600) (fill 1024)
      agent refl clean (omega arith) (length-fill 1024) agent-IsValid

handle_receive_from_full_example :
    handle_receive_from three_parts false (fill 1024) (fill 1024) agent ≡ crash out_of_range
handle_receive_from_full_example =
    handle_receive_from_full three_parts (fill 1024) (fill 1024) agent (length-fill 1024)
      (length-fill 1024)
