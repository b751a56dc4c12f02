-- ===== src/Tc/Tests.antt =====
-- Runs of the interface table and the `tc` commands, and the theorems on them at concrete tables.
use virtual_time_synchroniza.Prelude.{◌≡◌, refl, false, Bytes, List, [], ◌∷◌, some, done, codes}
use virtual_time_synchroniza.Prelude.Int.{pos}
use virtual_time_synchroniza.Floats.Fixed.{fixed, quotient, product}
use virtual_time_synchroniza.OrderedMap.{compare_bytes}
use virtual_time_synchroniza.IfaceTable.{
  InterfaceAttributeTable, InterfaceAttributeEntry, new_entry,
}
use virtual_time_synchroniza.IfaceTable.Laws.{IsValid}
use virtual_time_synchroniza.Tc.{change_interface_attribute, update_interface_attribute}
use virtual_time_synchroniza.Tc.Update.{kept, commands, update_interface_attribute_lem}

abbrev pub dropped : InterfaceAttributeEntry
dropped = record { rate = pos 1; delay = pos 2; flag_keep = false }

abbrev pub two_interfaces : InterfaceAttributeTable
two_interfaces =
    (codes "eth0", some (new_entry (pos 1000) (pos 30))) ∷ (codes "eth1", some dropped) ∷ []

pub two_interfaces-IsValid : IsValid two_interfaces
unfolding compare_bytes
two_interfaces-IsValid = record { sorted = ((refl, tt), (tt, tt)); no_null = (tt, (tt, tt)) }

update_interface_attribute_lem_example :
    update_interface_attribute (pos 2000) two_interfaces
    ≡ done (kept two_interfaces, commands (pos 2000) two_interfaces)
update_interface_attribute_lem_example =
    update_interface_attribute_lem (pos 2000) two_interfaces two_interfaces-IsValid

one_left : kept two_interfaces ≡ (codes "eth0", some (new_entry (pos 1000) (pos 30))) ∷ []
one_left = refl

abbrev as_is : Bytes → Bytes
as_is s = s

abbrev one_word : Bytes → List Bytes
one_word s = s ∷ []

-- At TDF 2 the rate is halved and the delay doubled.
slowed_down :
    change_interface_attribute (codes "eth0") (pos 1000) (pos 30) (pos 2000)
    ≡ codes " tc class change dev eth0 classid 1:10 htb rate 500 burst 1000 cburst 1000"
      ∷ codes " tc class change dev eth0 classid 1:20 htb rate 500 burst 1000 cburst 1000"
      ∷ codes " tc class change dev eth0 classid 1:30 htb rate 500 burst 1000 cburst 1000"
      ∷ codes " tc qdisc change dev eth0 handle 10: netem delay 60"
      ∷ codes " tc qdisc change dev eth0 handle 20: netem delay 60"
      ∷ []
unfolding change_interface_attribute quotient product virtual_time_synchroniza.CLib.print_lld
slowed_down = refl
