-- ===== src/Message.antt =====
-- virtualagent/MessageProcessor.{hpp,cpp}: the messages that a controller (over TCP) and the other
-- agents (over UDP) send. A message is cut into tokens at `|`; the first is the protocol number. A
-- message with a wrong number of tokens is only logged. `split` is `boost::split` with
-- `is_any_of("|")` and `token_compress_on`; the logger is left out.
pub mod Tcp
pub mod Validity
pub mod Handlers
pub mod Crash
pub mod Arity
pub mod Forced
pub mod Suspend
pub mod Tests
use virtual_time_synchroniza.Prelude.{
  ℕ, zero, suc, ◌-◌, ◌%◌, ◌^◌, Bool, true, false, Bytes, List, [], ◌∷◌, Outcome, done, crash,
  out_of_range, ◌>>=◌, ◌==◌, if◌then◌else◌, All, ◌≡◌, ◌≢◌, ◌++◌,
}
use virtual_time_synchroniza.Prelude.Int.{ℤ, pos, negsuc}
use virtual_time_synchroniza.Floats.{Floats}
use virtual_time_synchroniza.CLib.{atoi, atoll, c_string}
use virtual_time_synchroniza.TdfTable
use virtual_time_synchroniza.IfaceTable
use virtual_time_synchroniza.Tc.{change_interface_attribute}
use virtual_time_synchroniza.Agent.{Agent, execute}
use virtual_time_synchroniza.Timer.{HostTime}
use Tcp.{dispatch_tcp, is_number}

module _ ⦃fl : Floats⦄ where
  open fl use {widen, atof}

  -- Protocol 10: `tdfTable.set(hostname, tdf)`
  unfoldable pub udp_set_tdf : List Bytes → Agent → Outcome Agent
  udp_set_tdf (t ∷ hostname ∷ tdf ∷ []) a =
      TdfTable.set a.config a.tdf_table hostname (widen (atof tdf)) >>= λ table.
      done (record a { tdf_table = table })
  udp_set_tdf _ a = done a

  -- Protocol 3: `ifaceAttrTable.set(ifaceName, rate, delay)`, and the `tc` commands at the TDF in force
  unfoldable pub udp_set_interface : List Bytes → Agent → Outcome Agent
  udp_set_interface (t ∷ iface_name ∷ rate ∷ delay ∷ []) a =
      let a' : Agent = record a {
        iface_table = IfaceTable.set a.iface_table iface_name (atoll rate) (atoll delay);
      } in
      done (
        execute
          (change_interface_attribute iface_name (atoll rate) (atoll delay) a.tdf_table.latest_tdf)
          a')
  udp_set_interface _ a = done a

  unfoldable pub dispatch_udp : ℤ → List Bytes → Agent → Outcome Agent
  dispatch_udp protocol_number tokens a =
      if is_number protocol_number 10
      then udp_set_tdf tokens a
      else if is_number protocol_number 3
      then udp_set_interface tokens a
      else done a

  -- `msgToken[0]` is read first.
  abbrev pub udp_tokens : List Bytes → Agent → Outcome Agent
  udp_tokens [] a = crash out_of_range
  udp_tokens (t ∷ ts) a = dispatch_udp (atoi t) (t ∷ ts) a

  abbrev pub tcp_tokens : HostTime → List Bytes → Agent → Outcome Agent
  tcp_tokens h [] a = crash out_of_range
  tcp_tokens h (t ∷ ts) a = dispatch_tcp h (atoi t) (t ∷ ts) a

  module _ (split : Bytes → List Bytes) where
    unfoldable pub parse_udp_msg : Bytes → Agent → Outcome Agent
    parse_udp_msg msg a = udp_tokens (split msg) a

    unfoldable pub process_udp_msg : Bytes → Agent → Outcome Agent
    unfolding parse_udp_msg c_string
    process_udp_msg udp_msg a = parse_udp_msg (c_string udp_msg) a

    unfoldable pub parse_tcp_msg : HostTime → Bytes → Agent → Outcome Agent
    parse_tcp_msg h msg a = tcp_tokens h (split msg) a

    unfoldable pub process_tcp_msg : HostTime → Bytes → Agent → Outcome Agent
    unfolding parse_tcp_msg c_string
    process_tcp_msg h tcp_msg a = parse_tcp_msg h (c_string tcp_msg) a
