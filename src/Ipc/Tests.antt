-- ===== src/Ipc/Tests.antt =====
-- A creation and a removal in the system of Names.
use virtual_time_synchroniza.Prelude.{◌≡◌, refl, true, none, some, done, arith}
use virtual_time_synchroniza.Prelude.Int.{pos}
use virtual_time_synchroniza.Ipc.{
  segment, semaphore_set, tskey, Handles, ipc_create, ipc_remove, open_segment, semaphore_create,
}
use virtual_time_synchroniza.Ipc.Creation.{AreNames, IsRemoved}
use virtual_time_synchroniza.Ipc.Lifecycle.{ipc_remove-ipc_create}
use virtual_time_synchroniza.Ipc.Names.{Names, put, small, small-IsSystemV}

-- No name exists.
abbrev empty : Names
empty = λ kind key. none

-- What the calls of a creation leave.
abbrev created : Names
created =
    put semaphore_set 331 (some true) (
      put segment 527 (some true) (put segment 529 (some true) (put segment 528 (some true) empty)))

abbrev handles : Handles
handles = record {
  timers_state = record { shmid = pos 528; address = 0 };
  tdf = record { shmid = pos 529; address = 0 };
  simulators_state = record { shmid = pos 527; address = 0 };
  semid_gostop = pos 331;
}

ipc_create_run : ipc_create small tskey empty ≡ done (created, handles)
unfolding ipc_create open_segment semaphore_create
ipc_create_run = refl

tskey-AreNames : AreNames tskey
tskey-AreNames = (
  λ e. absurd (omega arith),
  λ e. absurd (omega arith),
  λ e. absurd (omega arith),
  λ e. absurd (omega arith),
  λ e. absurd (omega arith),
  λ e. absurd (omega arith),
  λ e. absurd (omega arith),
)

ipc_remove-ipc_create_example :
    (k : Names) × (ipc_remove small handles created ≡ done k) × IsRemoved small tskey handles k
ipc_remove-ipc_create_example =
    ipc_remove-ipc_create small small-IsSystemV tskey empty tskey-AreNames (refl, refl, refl)
      ipc_create_run
