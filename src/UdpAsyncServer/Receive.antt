-- ===== src/UdpAsyncServer/Receive.antt =====
-- From the datagram to the TDF table: what a monitor sends arrives as its host's TDF.
use virtual_time_synchroniza.Prelude.{
  ◌≡◌, ◌≢◌, ◌<◌, refl, true, false, Bytes, List, [], ◌∷◌, ◌++◌, some, done, crash, out_of_range,
  arith, length, length-append, drop, All, codes, ltb, ◌==◌,
}
use virtual_time_synchroniza.Floats.{Floats, IsOrdered}
use virtual_time_synchroniza.CLib.{atoi}
use virtual_time_synchroniza.Prelude.Int.{pos}
use virtual_time_synchroniza.CLib.Buffers.{c_string_text, set_behind, drop_short, drop_everything}
use virtual_time_synchroniza.OrderedMap.{find}
use virtual_time_synchroniza.TdfTable.{TdfTable, set}
use virtual_time_synchroniza.TdfTable.Update.{set_lem, Adopts}
use virtual_time_synchroniza.Agent.{Agent, IsValid}
use virtual_time_synchroniza.Message.{process_udp_msg, parse_udp_msg, dispatch_udp, udp_set_tdf}
use virtual_time_synchroniza.Message.Validity.{with_table-IsValid}
use virtual_time_synchroniza.CpuMonitor.{message}
use virtual_time_synchroniza.UdpAsyncServer.{handle_receive_from, max_length}

protocol_number : atoi (codes "0010") ≡ pos 10
unfolding atoi
protocol_number = refl

module _ ⦃fl : Floats⦄ where
  open fl use {LongDouble, l, widen, atof, print}

  not_blank : (hostname : Bytes) (tdf : LongDouble) → 0 < length (message hostname tdf)
  unfolding message
  not_blank hostname tdf = omega arith

  module _ (split : Bytes → List Bytes) where
    -- A datagram that leaves room in the buffer reaches the message processor as it was sent.
    pub handle_receive_from_text :
        (text contents : Bytes) (a a' : Agent)
        → 0 < length text
        → length text < length contents
        → All (λ c. c ≢ 0) text
        → parse_udp_msg split text a ≡ done a'
        → (buffer : Bytes) × (handle_receive_from split false text contents a ≡ done (buffer, a'))
          × (length buffer ≡ length contents)
    unfolding handle_receive_from process_udp_msg
    handle_receive_from_text text contents a a' some_text room clean run =
        let (y, rest, e, k) = drop_short (length text) contents room in
        let nul = set_behind text y 0 rest (length text) refl in
        let fits : ltb (length text) (length (text ++ (y ∷ rest))) ≡ true =
          ground (arith, length-append text (y ∷ rest)) in
        let not_empty : (length text == 0) ≡ false = ground arith in
        (
          text ++ (0 ∷ rest),
          rw (e, not_empty, fits, nul, c_string_text text rest clean, run) refl,
          omega (arith, length-append text (0 ∷ rest), k),
        )

    -- The splitting cuts the message that a host sends for a TDF into its three parts, and the message is
    -- a C string that leaves room in the buffer.
    pub record IsDeliverable (hostname : Bytes) (tdf : LongDouble) : Type 0 where
      pub cut : split (message hostname tdf) ≡ codes "0010" ∷ hostname ∷ print tdf ∷ []
      pub clean : All (λ c. c ≢ 0) (message hostname tdf)
      pub short : length (message hostname tdf) < max_length

    -- A deliverable message does to the agent what `set` does to its table.
    pub handle_receive_from-set :
        (hostname : Bytes) (tdf : LongDouble) (contents : Bytes) (a : Agent) (table : TdfTable)
        → IsDeliverable hostname tdf
        → length contents ≡ max_length
        → set a.config a.tdf_table hostname (widen (atof (print tdf))) ≡ done table
        → (buffer : Bytes) × (handle_receive_from split false (message hostname tdf) contents a
            ≡ done (buffer, record a { tdf_table = table }))
          × (length buffer ≡ max_length)
    unfolding parse_udp_msg dispatch_udp udp_set_tdf
    handle_receive_from-set hostname tdf contents a table ok size run =
        let (buffer, received, same) =
          handle_receive_from_text (message hostname tdf) contents a
            (record a { tdf_table = table }) (not_blank hostname tdf) (omega (arith, ok.short))
            ok.clean (rw (ok.cut, run, protocol_number) refl) in
        (buffer, received, omega (arith, same))

    -- The message that a monitor sends is taken in by a valid agent, if it is shorter than the
    -- buffer and holds no NUL: the agent's table then holds for that host the TDF as it was
    -- printed, it adopts the greatest TDF or keeps the one in force as the table's rule says, the
    -- agent stays valid and the buffer has its size. Of the splitting it is taken that it cuts
    -- this message into its three parts.
    pub handle_receive_from-message :
        (laws : IsOrdered l) (hostname : Bytes) (tdf : LongDouble) (contents : Bytes) (a : Agent)
        → split (message hostname tdf) ≡ codes "0010" ∷ hostname ∷ print tdf ∷ []
        → All (λ c. c ≢ 0) (message hostname tdf)
        → length (message hostname tdf) < max_length
        → length contents ≡ max_length
        → IsValid a
        → (buffer : Bytes) × (a' : Agent) × (handle_receive_from split false
              (message hostname tdf)
              contents
              a
            ≡ done (buffer, a'))
          × (length buffer ≡ max_length)
          × IsValid a'
          × (find hostname a'.tdf_table.tdf_map
              ≡ some (some (record { base_tdf = widen (atof (print tdf)) })))
          × Adopts a.config a.tdf_table a'.tdf_table
    handle_receive_from-message laws hostname tdf contents a cut clean short size v =
        let (table, run, ok, found, _, _, adopts) =
          set_lem laws a.config a.tdf_table hostname (widen (atof (print tdf))) v.tdf_valid in
        let (buffer, received, same) =
          handle_receive_from-set hostname tdf contents a table
            (record { cut = cut; clean = clean; short = short }) size run in
        (
          buffer,
          record a { tdf_table = table },
          received,
          same,
          with_table-IsValid a table v ok,
          found,
          adopts,
        )

    -- A datagram of 1024 bytes, which fills the buffer, makes the server write the NUL behind the
    -- buffer's end.
    pub handle_receive_from_full :
        (received contents : Bytes) (a : Agent)
        → length received ≡ max_length
        → length contents ≡ max_length
        → handle_receive_from split false received contents a ≡ crash out_of_range
    unfolding handle_receive_from
    handle_receive_from_full received contents a full size =
        let nothing : drop (length received) contents ≡ [] =
          drop_everything (length received) contents (omega arith) in
        let no_room : ltb (length received) (length (received ++ [])) ≡ false =
          ground (arith, length-append received []) in
        let not_empty : (length received == 0) ≡ false = ground arith in
        rw (nothing, not_empty, no_room) refl
