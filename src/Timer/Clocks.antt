-- ===== src/Timer/Clocks.antt =====
-- virtualagent/shared/qemu-timer.c: init_clocks, which allocates the three clocks. Each is allocated with
-- the size of a pointer, and not with that of a clock.
use virtual_time_synchroniza.Prelude.{
  ℕ, ◌+◌, ◌≤◌, ◌<◌, ◌≡◌, refl, Bool, true, false, Option, none, some, Outcome, done, crash,
  null_pointer, out_of_range, ◌>>=◌, if◌then◌else◌, ltb, arith,
}
use virtual_time_synchroniza.Timer.{ClockType, clock_realtime, clock_virtual, clock_host}

-- The block that a `QEMUClock *` points to, and what stands in its two fields of type `int`.
pub record Block : Type 0 where
  pub size : ℕ
  pub type : Option ClockType
  pub enabled : Option Bool

abbrev pub sizeof_int : ℕ
sizeof_int = 4

-- `malloc`: it may fail, and the block holds anything.
unfoldable pub malloc : Bool → ℕ → Option Block
malloc has_memory n =
    if has_memory then some (record { size = n; type = none; enabled = none }) else none

-- `clock->type = type`; the field is the first one.
unfoldable pub set_type : ClockType → Option Block → Outcome (Option Block)
set_type t none = crash null_pointer
set_type t (some b) =
    if ltb b.size sizeof_int then crash out_of_range else done (some (record b { type = some t }))

-- `clock->enabled = 1`; the field is the second one.
unfoldable pub set_enabled : Option Block → Outcome (Option Block)
set_enabled none = crash null_pointer
set_enabled (some b) =
    if ltb b.size (sizeof_int + sizeof_int)
    then crash out_of_range
    else done (some (record b { enabled = some true }))

-- `rt_clock`, `vm_clock` and `host_clock`.
pub record Clocks : Type 0 where
  pub rt_clock : Option Block
  pub vm_clock : Option Block
  pub host_clock : Option Block

-- The part of `init_clocks` behind `init_get_clock`; the first argument is the size of a pointer, and then
-- whether each of the three allocations succeeds.
unfoldable pub init_clocks : ℕ → Bool → Bool → Bool → Outcome Clocks
init_clocks sizeof_pointer first second third =
    let rt = malloc first sizeof_pointer in
    let vm = malloc second sizeof_pointer in
    let host = malloc third sizeof_pointer in
    do
      rt1 ← set_type clock_realtime rt
      vm1 ← set_type clock_virtual vm
      host1 ← set_type clock_host host
      rt2 ← set_enabled rt1
      vm2 ← set_enabled vm1
      host2 ← set_enabled host1
      done (record { rt_clock = rt2; vm_clock = vm2; host_clock = host2 })

abbrev pub clock_of : ℕ → ClockType → Option Block
clock_of size t = some (record { size = size; type = some t; enabled = some true })

-- Where a pointer has eight bytes and the allocations succeed, the three clocks are set up with their types
-- and enabled. Where a pointer has four bytes, the second field of a clock is written behind the block.
pub init_clocks_lem :
    (sizeof_pointer : ℕ)
    → (8 ≤ sizeof_pointer
        → init_clocks sizeof_pointer true true true
          ≡ done (record {
            rt_clock = clock_of sizeof_pointer clock_realtime;
            vm_clock = clock_of sizeof_pointer clock_virtual;
            host_clock = clock_of sizeof_pointer clock_host;
          }))
      × (4 ≤ sizeof_pointer
          → sizeof_pointer < 8
          → init_clocks sizeof_pointer true true true ≡ crash out_of_range)
unfolding init_clocks set_type set_enabled malloc
init_clocks_lem n = (
  λ wide.
      let a : ltb n 4 ≡ false = ground (arith, wide) in
      let b : ltb n 8 ≡ false = ground (arith, wide) in rw (a, b) refl,
  λ some_room narrow.
      let a : ltb n 4 ≡ false = ground (arith, some_room) in
      let b : ltb n 8 ≡ true = ground (arith, narrow) in rw (a, b) refl,
)
