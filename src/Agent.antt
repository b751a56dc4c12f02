-- ===== src/Agent.antt =====
-- The state that the agent's threads share: `MemoryDatabase` (virtualagent/MemoryDatabase.hpp) with its
-- two tables and the shared memory, the static members of `Configuration`, the go/stop semaphores,
-- and the `tc` commands that have been run so far.
use virtual_time_synchroniza.Prelude.{ℕ, ◌≡◌, Bool, ◌++◌, length, Outcome, done, ◌>>=◌}
use virtual_time_synchroniza.Floats.{Floats}
use virtual_time_synchroniza.Configuration.{Configuration}
use virtual_time_synchroniza.TdfTable.{TdfTable}
use virtual_time_synchroniza.TdfTable.Update.{IsValid as TdfTableIsValid}
use virtual_time_synchroniza.IfaceTable.{InterfaceAttributeTable}
use virtual_time_synchroniza.IfaceTable.Laws.{IsValid as IfaceTableIsValid}
use virtual_time_synchroniza.Timer.{Shared, HostTime, cpu_enable_ticks, cpu_disable_ticks}
use virtual_time_synchroniza.Semaphore.{Semaphores, semaphore_setval, vir_host, num_of_sem_gostop}
use virtual_time_synchroniza.Tc.{Commands}

module _ ⦃fl : Floats⦄ where
  pub record Agent : Type 0 where
    pub config : Configuration
    pub tdf_table : TdfTable
    pub iface_table : InterfaceAttributeTable
    pub shared : Shared
    pub semaphores : Semaphores
    pub use_rt_clock : Bool
    pub executed : Commands

  -- Both tables are valid and the semaphore set is the one that was created.
  pub record IsValid (a : Agent) : Type 0 where
    pub tdf_valid : TdfTableIsValid a.tdf_table
    pub iface_valid : IfaceTableIsValid a.iface_table
    pub semaphores_all : length a.semaphores ≡ num_of_sem_gostop

  unfoldable pub execute : Commands → Agent → Agent
  execute cmds a = record a { executed = a.executed ++ cmds }

  -- `semaphore_setval(semid_gostop, VIRHOST, v)`
  unfoldable pub set_hosts : ℕ → Agent → Outcome Agent
  set_hosts v a =
      semaphore_setval a.semaphores vir_host v >>= λ s. done (record a { semaphores = s })

  -- `cpu_disable_ticks()` and `cpu_enable_ticks()` on the agent's shared memory.
  unfoldable pub stop_time : HostTime → Agent → Agent
  stop_time h a = record a { shared = cpu_disable_ticks a.use_rt_clock a.shared h }

  unfoldable pub start_time : HostTime → Agent → Agent
  start_time h a = record a { shared = cpu_enable_ticks a.use_rt_clock a.shared h }
