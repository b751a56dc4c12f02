-- ===== src/Message/Tcp.antt =====
-- `MessageProcessor::parseTcpMsg`, a function for each protocol.
use virtual_time_synchroniza.Prelude.{
  ℕ, ◌-◌, ◌%◌, ◌^◌, Bool, false, Bytes, List, [], ◌∷◌, Outcome, done, ◌>>=◌, ◌==◌, if◌then◌else◌,
}
use virtual_time_synchroniza.Prelude.Int.{ℤ, pos, negsuc}
use virtual_time_synchroniza.Floats.{Floats}
use virtual_time_synchroniza.Configuration.{Configuration}
use virtual_time_synchroniza.CLib.{atoi, atoll}
use virtual_time_synchroniza.TdfTable
use virtual_time_synchroniza.TdfTable.{TdfTable}
use virtual_time_synchroniza.IfaceTable
use virtual_time_synchroniza.Tc.{replace_interface_attribute}
use virtual_time_synchroniza.Semaphore.{sem_go, sem_stop}
use virtual_time_synchroniza.Timer.{HostTime}
use virtual_time_synchroniza.Agent.{Agent, execute, set_hosts, stop_time, start_time}

abbrev pub is_number : ℤ → ℕ → Bool
is_number (pos n) k = n == k
is_number (negsuc n) k = false

-- The conversion of an `int` to `unsigned int`.
unfoldable pub to_unsigned : ℤ → ℕ
to_unsigned (pos n) = n % 2 ^ 32
to_unsigned (negsuc n) = 2 ^ 32 - 1 - n % 2 ^ 32

module _ ⦃fl : Floats⦄ where
  open fl use {d, l, LongDouble, widen, atof}

  abbrev with_config : Agent → Configuration → Outcome Agent
  with_config a cfg = done (record a { config = cfg })

  abbrev with_table : Agent → TdfTable → Outcome Agent
  with_table a table = done (record a { tdf_table = table })

  -- Protocol 1
  unfoldable pub replace_interface : List Bytes → Agent → Outcome Agent
  replace_interface (t ∷ iface_name ∷ rate ∷ delay ∷ []) a =
      let a' : Agent = record a {
        iface_table = IfaceTable.set a.iface_table iface_name (atoll rate) (atoll delay);
      } in
      done (
        execute (replace_interface_attribute iface_name (atoll rate) (atoll delay) (l.lit 10 1)) a')
  replace_interface _ a = done a

  -- Protocol 2
  unfoldable pub drop_interface : List Bytes → Agent → Outcome Agent
  drop_interface (t ∷ iface_name ∷ []) a =
      IfaceTable.set_flag_keep a.iface_table iface_name false >>= λ table.
      done (record a { iface_table = table })
  drop_interface _ a = done a

  -- Protocol 11
  unfoldable pub enforce : List Bytes → Agent → Outcome Agent
  enforce (t ∷ tdf ∷ []) a = with_table a (TdfTable.enforce_tdf a.tdf_table (widen (atof tdf)))
  enforce _ a = done a

  -- Protocols 12, 13 and 28
  unfoldable pub enable : List Bytes → Agent → Outcome Agent
  enable (t ∷ []) a = with_table a (TdfTable.enable_table a.tdf_table)
  enable _ a = done a

  unfoldable pub disable : List Bytes → Agent → Outcome Agent
  disable (t ∷ []) a = with_table a (TdfTable.disable_table a.tdf_table)
  disable _ a = done a

  unfoldable pub clear_table : List Bytes → Agent → Outcome Agent
  clear_table (t ∷ []) a = with_table a (TdfTable.clear a.tdf_table)
  clear_table _ a = done a

  -- Protocol 14
  unfoldable pub set_bounds : List Bytes → Agent → Outcome Agent
  set_bounds (t ∷ lo ∷ hi ∷ []) a =
      with_config a (record (a.config) { tdf_min = widen (atof lo); tdf_max = widen (atof hi) })
  set_bounds _ a = done a

  -- Protocol 20
  unfoldable pub set_gains : List Bytes → Agent → Outcome Agent
  set_gains (t ∷ slope ∷ factor ∷ alpha ∷ []) a = with_config a (record (a.config) {
    change_slope = atof slope;
    nonlinear_factor = atof factor;
    alpha = atof alpha;
  })
  set_gains _ a = done a

  -- Protocols 21, 22, 23, 32 and 33
  unfoldable pub set_target_load : List Bytes → Agent → Outcome Agent
  set_target_load (t ∷ x ∷ []) a = with_config a (record (a.config) { target_load = atof x })
  set_target_load _ a = done a

  unfoldable pub set_period : List Bytes → Agent → Outcome Agent
  set_period (t ∷ x ∷ []) a =
      with_config a (record (a.config) { packet_handle_period = to_unsigned (atoi x) })
  set_period _ a = done a

  unfoldable pub set_threshold : List Bytes → Agent → Outcome Agent
  set_threshold (t ∷ x ∷ []) a =
      with_config a (record (a.config) { tdf_change_threshold = widen (atof x) })
  set_threshold _ a = done a

  unfoldable pub set_mode : List Bytes → Agent → Outcome Agent
  set_mode (t ∷ x ∷ []) a = with_config a (record (a.config) { monitor_mode = atoi x })
  set_mode _ a = done a

  unfoldable pub set_sim_gain : List Bytes → Agent → Outcome Agent
  set_sim_gain (t ∷ x ∷ []) a = with_config a (record (a.config) { tdf_sim_gain = widen (atof x) })
  set_sim_gain _ a = done a

  -- Protocols 24 and 25, 26 and 27
  unfoldable pub set_suspensions : ℤ → List Bytes → Agent → Outcome Agent
  set_suspensions v (t ∷ []) a = with_config a (record (a.config) { is_vm_suspensions_enabled = v })
  set_suspensions v _ a = done a

  unfoldable pub set_monitored : ℤ → List Bytes → Agent → Outcome Agent
  set_monitored v (t ∷ []) a = with_config a (record (a.config) { is_load_monitored = v })
  set_monitored v _ a = done a

  -- Protocols 30 and 31
  unfoldable pub suspend : HostTime → List Bytes → Agent → Outcome Agent
  suspend h (t ∷ []) a = set_hosts sem_stop (stop_time h a)
  suspend h _ a = done a

  unfoldable pub resume : HostTime → List Bytes → Agent → Outcome Agent
  resume h (t ∷ []) a = set_hosts sem_go (start_time h a)
  resume h _ a = done a

  -- The second half of the `switch`, from protocol 23 on.
  unfoldable pub dispatch_late : HostTime → ℤ → List Bytes → Agent → Outcome Agent
  dispatch_late h n tokens a =
      if is_number n 23
      then set_threshold tokens a
      else if is_number n 24
      then set_suspensions (pos 1) tokens a
      else if is_number n 25
      then set_suspensions (pos 0) tokens a
      else if is_number n 26
      then set_monitored (pos 1) tokens a
      else if is_number n 27
      then set_monitored (pos 0) tokens a
      else if is_number n 28
      then clear_table tokens a
      else if is_number n 30
      then suspend h tokens a
      else if is_number n 31
      then resume h tokens a
      else if is_number n 32
      then set_mode tokens a
      else if is_number n 33
      then set_sim_gain tokens a
      else done a

  unfoldable pub dispatch_tcp : HostTime → ℤ → List Bytes → Agent → Outcome Agent
  dispatch_tcp h n tokens a =
      if is_number n 1
      then replace_interface tokens a
      else if is_number n 2
      then drop_interface tokens a
      else if is_number n 11
      then enforce tokens a
      else if is_number n 12
      then enable tokens a
      else if is_number n 13
      then disable tokens a
      else if is_number n 14
      then set_bounds tokens a
      else if is_number n 20
      then set_gains tokens a
      else if is_number n 21
      then set_target_load tokens a
      else if is_number n 22
      then set_period tokens a
      else dispatch_late h n tokens a
