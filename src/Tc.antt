-- ===== src/Tc.antt =====
-- virtualagent/InterfaceConfigurator.{hpp,cpp}: the `tc` commands that give a network interface its
-- rate and delay in virtual time. A command is the text that is handed to `system4Background`, and
-- the functions return the commands in the order in which they run; a status below zero is only
-- logged.
pub mod Process
pub mod Update
pub mod Tests
use virtual_time_synchroniza.Prelude.{
  Bool, Bytes, List, [], ◌∷◌, ◌++◌, Option, none, some, codes, if◌then◌else◌, Outcome, done, crash,
  null_pointer, ◌>>=◌,
}
use virtual_time_synchroniza.Prelude.Int.{ℤ}
use virtual_time_synchroniza.Floats.{Floats}
use virtual_time_synchroniza.CLib.{print_lld}
use virtual_time_synchroniza.IfaceTable.{InterfaceAttributeTable}
use virtual_time_synchroniza.IfaceTable

abbrev pub Commands : Type 0
Commands = List Bytes

module _ ⦃fl : Floats⦄ where
  open fl use {LongDouble, l}

  -- `long long adjustedRate = rate / tdf`, and `delay * tdf`
  unfoldable pub adjusted_rate : ℤ → LongDouble → ℤ
  adjusted_rate rate tdf = l.to_int (l.div (l.of_int rate) tdf)

  unfoldable pub adjusted_delay : ℤ → LongDouble → ℤ
  adjusted_delay delay tdf = l.to_int (l.mul (l.of_int delay) tdf)

  -- One of the three `tc class replace` commands, for the class that the text names.
  unfoldable pub replace_class : Bytes → Bytes → ℤ → ℤ → Bytes
  unfolding print_lld
  replace_class class_id iface adjusted rate =
      codes " tc class replace dev "
      ++ (iface
          ++ (codes " parent 1: classid "
              ++ (class_id
                  ++ (codes " htb rate "
                      ++ (print_lld adjusted
                          ++ (codes " burst "
                              ++ (print_lld rate ++ (codes " cburst " ++ print_lld rate))))))))

  unfoldable pub replace_interface_attribute : Bytes → ℤ → ℤ → LongDouble → Commands
  unfolding replace_class adjusted_rate adjusted_delay
  replace_interface_attribute iface rate delay tdf =
      let fast = adjusted_rate rate tdf in
      let late = print_lld (adjusted_delay delay tdf) in
      (codes " tc qdisc replace dev " ++ (iface ++ codes " handle 1: root htb default 10"))
      ∷ replace_class (codes "1:10") iface fast rate
      ∷ replace_class (codes "1:20") iface fast rate
      ∷ replace_class (codes "1:30") iface fast rate
      ∷ (codes " tc qdisc replace dev "
          ++ (iface ++ (codes " parent 1:10 handle 10: netem delay " ++ late)))
      ∷ (codes " tc qdisc replace dev "
          ++ (iface ++ (codes " parent 1:20 handle 20: netem delay " ++ late)))
      ∷ (codes " tc filter replace dev "
          ++ (iface
              ++ codes " parent 1: protocol ip prio 1 u32 match ip src 192.168.0.0/16 flowid 1:20"))
      ∷ (codes " tc filter replace dev "
          ++ (iface
              ++ codes " parent 1: protocol ip prio 1 u32 match ip src 172.16.0.0/16 flowid 1:30"))
      ∷ []

  unfoldable pub change_class : Bytes → Bytes → ℤ → ℤ → Bytes
  change_class class_id iface adjusted rate =
      codes " tc class change dev "
      ++ (iface
          ++ (codes " classid "
              ++ (class_id
                  ++ (codes " htb rate "
                      ++ (print_lld adjusted
                          ++ (codes " burst "
                              ++ (print_lld rate ++ (codes " cburst " ++ print_lld rate))))))))

  unfoldable pub change_interface_attribute : Bytes → ℤ → ℤ → LongDouble → Commands
  unfolding change_class adjusted_rate adjusted_delay
  change_interface_attribute iface rate delay tdf =
      let fast = adjusted_rate rate tdf in
      let late = print_lld (adjusted_delay delay tdf) in
      change_class (codes "1:10") iface fast rate
      ∷ change_class (codes "1:20") iface fast rate
      ∷ change_class (codes "1:30") iface fast rate
      ∷ (codes " tc qdisc change dev " ++ (iface ++ (codes " handle 10: netem delay " ++ late)))
      ∷ (codes " tc qdisc change dev " ++ (iface ++ (codes " handle 20: netem delay " ++ late)))
      ∷ []

unfoldable pub delete_interface_attribute : Bytes → Commands
delete_interface_attribute iface_name =
    (codes " tc qdisc del dev " ++ (iface_name ++ codes " root")) ∷ []

module _ ⦃fl : Floats⦄ where
  open fl use {LongDouble}

  -- The loop of `updateInterfaceAttribute`: `it` is the part of the map that the iterator has ahead,
  -- and `table` the map, from which the loop erases on its way.
  unfoldable pub update_loop :
      LongDouble
      → InterfaceAttributeTable
      → InterfaceAttributeTable
      → Outcome (InterfaceAttributeTable × Commands)
  update_loop tdf [] table = done (table, [])
  update_loop tdf ((iface_name, none) ∷ it) table = crash null_pointer
  update_loop tdf ((iface_name, some e) ∷ it) table =
      update_loop tdf it (if e.flag_keep then table else IfaceTable.erase table iface_name)
      >>= λ rest. done (
        rest.0,
        (if e.flag_keep
              then change_interface_attribute iface_name e.rate e.delay tdf
              else delete_interface_attribute iface_name)
            ++ rest.1,
      )

  unfoldable pub update_interface_attribute :
      LongDouble → InterfaceAttributeTable → Outcome (InterfaceAttributeTable × Commands)
  update_interface_attribute tdf table = update_loop tdf table table
