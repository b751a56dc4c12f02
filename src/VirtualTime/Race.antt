-- ===== src/VirtualTime/Race.antt =====
-- A controller's message that arrives in the middle of a round.
use virtual_time_synchroniza.Prelude.{
  ◌≡◌, ◌<◌, refl, true, false, Bytes, [], ◌∷◌, done, ◌>>=◌, arith, length,
}
use virtual_time_synchroniza.Prelude.Int.{pos}
use virtual_time_synchroniza.Floats.{Floats}
use virtual_time_synchroniza.IfaceTable.Laws.{IsValid as IfaceTableIsValid}
use virtual_time_synchroniza.Timer.{HostTime}
use virtual_time_synchroniza.Tc.Update.{update_interface_attribute_lem}
use virtual_time_synchroniza.Semaphore.{semaphore_waitforzero, vir_host, blocked}
use virtual_time_synchroniza.Semaphore.Laws.{semaphore_setval_done, waitforzero-setval}
use virtual_time_synchroniza.Agent.{Agent, execute, set_hosts, stop_time, start_time}
use virtual_time_synchroniza.Message.Tcp.{set_suspensions}
use virtual_time_synchroniza.VirtualTime.{suspends, hold, apply_tdf, release}

module _ ⦃fl : Floats⦄ where
  -- With the suspensions on, a valid interface table and the semaphore in place: where the message
  -- that switches the suspensions off (protocol 25) arrives after a round has stopped the hosts
  -- and before it lets them go on, the round ends with the hosts still held and the suspensions
  -- off.
  pub release-set_suspensions_held :
      (stop begin : HostTime) (token : Bytes) (a : Agent)
      → IfaceTableIsValid a.iface_table
      → 0 < length a.semaphores
      → suspends a.config ≡ true
      → (a' : Agent) × ((hold stop a >>= λ held. apply_tdf held >>= λ s.
            set_suspensions (pos 0) (token ∷ []) s >>= λ off. release begin off)
          ≡ done a')
        × (semaphore_waitforzero a'.semaphores vir_host ≡ done blocked)
        × (suspends a'.config ≡ false)
  unfolding hold apply_tdf release set_hosts stop_time start_time execute set_suspensions
  release-set_suspensions_held stop begin token a v some_sem on =
      rw
        (
          on,
          semaphore_setval_done a.semaphores 0 1 some_sem (omega arith),
          update_interface_attribute_lem a.tdf_table.latest_tdf a.iface_table v,
        )
        (
          _,
          refl,
          waitforzero-setval a.semaphores 0 1 some_sem (omega arith)
              (semaphore_setval_done a.semaphores 0 1 some_sem (omega arith)),
          refl,
        )
