-- ===== src/VirtualAgent.antt =====
-- virtualagent/VirtualAgent.{hpp,cpp}: the threads of the agent as steps, from the start to the end. The
-- loops are those of VirtualTime.cpp (startAdaptiveVirtualTime) and CpuMonitor.cpp (start).
pub mod Countdown
pub mod Shutdown
mod Tests
use virtual_time_synchroniza.Prelude.{ℕ, zero, suc, ◌≡◌, Bool, true, false, codes, if◌then◌else◌}
use virtual_time_synchroniza.Configuration.{Addresses}
use virtual_time_synchroniza.SignalHandler.{Signal, receive}

-- The constructor, whose addresses the sockets are opened with. It takes one of them from the settings.
unfoldable pub create : Addresses → Addresses
create settings = record {
  broadcast_ip = settings.broadcast_ip;
  tcp_port = codes "13210";
  udp_port = codes "13211";
}

-- The main thread in `start`: what it does next.
pub data MainPhase : Type 0 where
  joins_monitor notifies joins_virtual_time stops_service joins_service returned : MainPhase

-- The virtual time thread: before the test of `isRunning`, between the test and `cond.wait`, in
-- `cond.wait`, in a round, ended.
pub data VirtualTimePhase : Type 0 where
  testing entering waiting adjusting ended : VirtualTimePhase

-- The CPU monitor: before the test of `isRunning`, in a round, ended.
pub data MonitorPhase : Type 0 where
  testing measuring ended : MonitorPhase

-- The thread of `io_service::run`: it serves until the service is stopped.
pub data ServicePhase : Type 0 where
  serving stopped ended : ServicePhase

pub record Threads : Type 0 where
  pub is_running : Bool
  pub main : MainPhase
  pub virtual_time : VirtualTimePhase
  pub monitor : MonitorPhase
  pub service : ServicePhase

-- How the set-up of the sockets goes: an exception of a server comes before any thread is started, one of
-- the UDP client when the service's thread runs already.
pub data Setup : Type 0 where
  all_open server_throws client_throws : Setup

-- The threads behind the set-up. An exception leads to the end of `start`; the destructor of `boost::thread`
-- only detaches the service's thread.
unfoldable pub start : Bool → Setup → Threads
start is_running all_open = record {
  is_running = is_running;
  main = joins_monitor;
  virtual_time = VirtualTimePhase.testing;
  monitor = MonitorPhase.testing;
  service = serving;
}
start is_running server_throws = record {
  is_running = is_running;
  main = returned;
  virtual_time = VirtualTimePhase.ended;
  monitor = MonitorPhase.ended;
  service = ServicePhase.ended;
}
start is_running client_throws = record {
  is_running = is_running;
  main = returned;
  virtual_time = VirtualTimePhase.ended;
  monitor = MonitorPhase.ended;
  service = serving;
}

-- `notify_all` wakes the thread that waits.
unfoldable pub notify_all : VirtualTimePhase → VirtualTimePhase
notify_all VirtualTimePhase.waiting = VirtualTimePhase.adjusting
notify_all p = p

-- A step of one of the threads.
pub data Step : Threads → Threads → Type 0 where
  virtual_time_tests :
      (s : Threads)
      → s.virtual_time ≡ VirtualTimePhase.testing
      → Step s (record s {
        virtual_time = if s.is_running then VirtualTimePhase.entering else VirtualTimePhase.ended;
      })
  virtual_time_waits :
      (s : Threads)
      → s.virtual_time ≡ VirtualTimePhase.entering
      → Step s (record s { virtual_time = VirtualTimePhase.waiting })
  virtual_time_adjusts :
      (s : Threads)
      → s.virtual_time ≡ VirtualTimePhase.adjusting
      → Step s (record s { virtual_time = VirtualTimePhase.testing })
  monitor_tests :
      (s : Threads)
      → s.monitor ≡ MonitorPhase.testing
      → Step s (record s {
        monitor = if s.is_running then MonitorPhase.measuring else MonitorPhase.ended;
      })
  monitor_measures :
      (s : Threads)
      → s.monitor ≡ MonitorPhase.measuring
      → Step s (record s { monitor = MonitorPhase.testing })
  main_joins_monitor :
      (s : Threads)
      → s.main ≡ joins_monitor
      → s.monitor ≡ MonitorPhase.ended
      → Step s (record s { main = notifies })
  main_notifies :
      (s : Threads)
      → s.main ≡ notifies
      → Step s (record s { main = joins_virtual_time; virtual_time = notify_all s.virtual_time })
  main_joins_virtual_time :
      (s : Threads)
      → s.main ≡ joins_virtual_time
      → s.virtual_time ≡ VirtualTimePhase.ended
      → Step s (record s { main = stops_service })
  main_stops_service :
      (s : Threads)
      → s.main ≡ stops_service
      → Step s (record s { main = joins_service; service = ServicePhase.stopped })
  service_ends :
      (s : Threads)
      → s.service ≡ ServicePhase.stopped
      → Step s (record s { service = ServicePhase.ended })
  main_joins_service :
      (s : Threads)
      → s.main ≡ joins_service
      → s.service ≡ ServicePhase.ended
      → Step s (record s { main = returned })

-- What comes from outside: a signal, a message that changes the TDF, by which the service notifies the
-- virtual time thread, and a return of `cond.wait` without a notification.
pub data Event : Threads → Threads → Type 0 where
  signals :
      (s : Threads) (sig : Signal) → Event s (record s { is_running = receive sig s.is_running })
  message :
      (s : Threads)
      → s.service ≡ ServicePhase.serving
      → Event s (record s { virtual_time = notify_all s.virtual_time })
  wakes_up :
      (s : Threads)
      → s.virtual_time ≡ VirtualTimePhase.waiting
      → Event s (record s { virtual_time = VirtualTimePhase.adjusting })

-- Any number of steps and events; the number counts the steps.
pub data Run : ℕ → Threads → Threads → Type 0 where
  still : (s : Threads) → Run 0 s s
  step : {n : ℕ} {s t u : Threads} → Step s t → Run n t u → Run (suc n) s u
  event : {n : ℕ} {s t u : Threads} → Event s t → Run n t u → Run n s u
