-- ===== src/IfaceTable.antt =====
-- `InterfaceAttributeEntry` and `InterfaceAttributeTable` of virtualagent/MemoryDatabase.{hpp,cpp}:
-- the rate and the delay that each network interface is to have. A `shared_ptr` is an `Option`; the
-- private mutex and the logger are left out.
pub mod Laws
use virtual_time_synchroniza.Prelude.{
  Bool, true, Bytes, [], ◌∷◌, ◌++◌, codes, ◌>>=◌, Option, none, some, Outcome, done, crash,
  null_pointer,
}
use virtual_time_synchroniza.Prelude.Int.{ℤ}
use virtual_time_synchroniza.CLib.{print_lld}
use virtual_time_synchroniza.OrderedMap.{OrderedMap}
use virtual_time_synchroniza.OrderedMap

pub record InterfaceAttributeEntry : Type 0 where
  pub rate : ℤ
  pub delay : ℤ
  pub flag_keep : Bool

-- The constructor.
abbrev pub new_entry : ℤ → ℤ → InterfaceAttributeEntry
new_entry rate delay = record { rate = rate; delay = delay; flag_keep = true }

abbrev pub InterfaceAttributeTable : Type 0
InterfaceAttributeTable = OrderedMap (Option InterfaceAttributeEntry)

unfoldable pub get_iface_attr_map :
    InterfaceAttributeTable → OrderedMap (Option InterfaceAttributeEntry)
get_iface_attr_map m = m

unfoldable pub set : InterfaceAttributeTable → Bytes → ℤ → ℤ → InterfaceAttributeTable
set m iface_name rate delay = OrderedMap.insert iface_name (some (new_entry rate delay)) m

-- `ifaceAttrMap[ifaceName]`: a name that is missing is put in, with a null pointer.
unfoldable pub get :
    InterfaceAttributeTable → Bytes → InterfaceAttributeTable × Option InterfaceAttributeEntry
get m iface_name = elim (OrderedMap.find iface_name m) [
  | some e ↦ (m, e)
  | none ↦ (OrderedMap.insert iface_name none m, none)
]

-- `ifaceAttrMap[ifaceName]->flagKeep = flagKeep`
unfoldable pub set_flag_keep :
    InterfaceAttributeTable → Bytes → Bool → Outcome InterfaceAttributeTable
set_flag_keep m iface_name flag_keep = elim (OrderedMap.find iface_name m) [
  | some (some e) ↦
      done (OrderedMap.insert iface_name (some (record e { flag_keep = flag_keep })) m)
  | _ ↦ crash null_pointer
]

unfoldable pub erase : InterfaceAttributeTable → Bytes → InterfaceAttributeTable
erase m iface_name = OrderedMap.erase iface_name m

-- `print`: a line for each interface. What is printed before a crash is left out.
unfoldable pub print : InterfaceAttributeTable → Outcome Bytes
print [] = done []
print ((iface, none) ∷ rest) = crash null_pointer
print ((iface, some e) ∷ rest) = print rest >>= λ s.
    done (
      iface
      ++ (codes ": " ++ (print_lld e.rate ++ (codes ", " ++ (print_lld e.delay ++ (10 ∷ s))))))
