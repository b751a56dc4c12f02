-- ===== src/Configuration.antt =====
-- virtualagent/Configuration.{hpp,cpp}: the static settings that the monitor, the message
-- processor and the TDF table share, and the addresses.
use virtual_time_synchroniza.Prelude.{ℕ, Bytes, codes}
use virtual_time_synchroniza.Prelude.Int.{ℤ, pos}
use virtual_time_synchroniza.Floats.{Floats}

-- The broadcast address and the ports.
pub record Addresses : Type 0 where
  pub broadcast_ip : Bytes
  pub tcp_port : Bytes
  pub udp_port : Bytes

abbrev pub default_addresses : Addresses
default_addresses = record {
  broadcast_ip = codes "10.10.10.255";
  tcp_port = codes "9998";
  udp_port = codes "9997";
}

module _ ⦃fl : Floats⦄ where
  open fl use {Double, LongDouble, d, l}

  pub record Configuration : Type 0 where
    pub change_slope : Double
    pub nonlinear_factor : Double
    pub alpha : Double
    pub target_load : Double
    pub packet_handle_period : ℕ
    pub tdf_min : LongDouble
    pub tdf_max : LongDouble
    pub tdf_change_threshold : LongDouble
    pub is_vm_suspensions_enabled : ℤ
    pub is_load_monitored : ℤ
    pub monitor_mode : ℤ
    pub target_delay : ℕ
    pub tdf_sim_gain : LongDouble

  -- The values that the program starts with.
  abbrev pub defaults : Configuration
  defaults = record {
    change_slope = d.lit 30 1;
    nonlinear_factor = d.lit 40 1;
    alpha = d.lit 125 3;
    target_load = d.lit 5 1;
    packet_handle_period = 10000;
    tdf_min = l.lit 10 1;
    tdf_max = l.lit 200 1;
    tdf_change_threshold = l.lit 1 1;
    is_vm_suspensions_enabled = pos 1;
    is_load_monitored = pos 1;
    monitor_mode = pos 0;
    target_delay = 200000;
    tdf_sim_gain = l.lit 5 2;
  }
