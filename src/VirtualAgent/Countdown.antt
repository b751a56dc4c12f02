-- ===== src/VirtualAgent/Countdown.antt =====
-- The steps of the agent that are left after SIGTERM, counted.
use virtual_time_synchroniza.Prelude.{ℕ, ◌+◌, ◌≤◌, ◌<◌, ◌≡◌, false, arith}
use virtual_time_synchroniza.SignalHandler.{Signal, receive, signal_handler, set_up_handlers}
use virtual_time_synchroniza.VirtualAgent.{
  Threads, MainPhase, VirtualTimePhase, MonitorPhase, ServicePhase, Step, Event, Run, notify_all,
  still, step, event,
}

-- The steps that a thread has left at most, once the flag is off.
unfoldable main_left : MainPhase → ℕ
main_left MainPhase.joins_monitor = 6
main_left MainPhase.notifies = 5
main_left MainPhase.joins_virtual_time = 4
main_left MainPhase.stops_service = 3
main_left MainPhase.joins_service = 1
main_left MainPhase.returned = 0

unfoldable virtual_time_left : VirtualTimePhase → ℕ
virtual_time_left VirtualTimePhase.entering = 4
virtual_time_left VirtualTimePhase.waiting = 3
virtual_time_left VirtualTimePhase.adjusting = 2
virtual_time_left VirtualTimePhase.testing = 1
virtual_time_left VirtualTimePhase.ended = 0

unfoldable monitor_left : MonitorPhase → ℕ
monitor_left MonitorPhase.measuring = 2
monitor_left MonitorPhase.testing = 1
monitor_left MonitorPhase.ended = 0

unfoldable service_left : ServicePhase → ℕ
service_left ServicePhase.serving = 0
service_left ServicePhase.stopped = 1
service_left ServicePhase.ended = 0

unfoldable left : Threads → ℕ
left s =
    main_left s.main
    + virtual_time_left s.virtual_time
    + monitor_left s.monitor
    + service_left s.service

left_bound : (s : Threads) → left s ≤ 13
unfolding left main_left virtual_time_left monitor_left service_left
left_bound s = ground arith

-- No signal sets the flag.
pub receive_off : (sig : Signal) → receive sig false ≡ false
unfolding receive signal_handler set_up_handlers
receive_off sig = ground arith

notify_all-left : (p : VirtualTimePhase) → virtual_time_left (notify_all p) ≤ virtual_time_left p
unfolding notify_all virtual_time_left
notify_all-left p = ground arith

abbrev pub IsOff : Threads → Type 0
IsOff s = s.is_running ≡ false

Step-left : {s t : Threads} → Step s t → IsOff s → IsOff t × (left t < left s)
unfolding left main_left virtual_time_left monitor_left service_left
Step-left (Step.virtual_time_tests s at) off = ground arith
Step-left (Step.virtual_time_waits s at) off = ground arith
Step-left (Step.virtual_time_adjusts s at) off = ground arith
Step-left (Step.monitor_tests s at) off = ground arith
Step-left (Step.monitor_measures s at) off = ground arith
Step-left (Step.main_joins_monitor s at ended) off = ground arith
Step-left (Step.main_notifies s at) off = ground (arith, notify_all-left s.virtual_time)
Step-left (Step.main_joins_virtual_time s at ended) off = ground arith
Step-left (Step.main_stops_service s at) off = ground arith
Step-left (Step.service_ends s at) off = ground arith
Step-left (Step.main_joins_service s at ended) off = ground arith

Event-left : {s t : Threads} → Event s t → IsOff s → IsOff t × (left t ≤ left s)
unfolding left
Event-left (Event.signals s sig) off = ground (arith, receive_off sig)
Event-left (Event.message s at) off = ground (arith, notify_all-left s.virtual_time)
Event-left (Event.wakes_up s at) off = unfold virtual_time_left in ground arith

Run-left : {n : ℕ} {s t : Threads} → Run n s t → IsOff s → IsOff t × (n + left t ≤ left s)
Run-left (still s) off = (off, omega arith)
Run-left (step d r) off =
    let (off', less) = Step-left d off in
    let (off'', rest) = Run-left r off' in (off'', omega arith)
Run-left (event d r) off =
    let (off', less) = Event-left d off in
    let (off'', rest) = Run-left r off' in (off'', omega arith)

-- Once the flag is off, whatever signals, messages and wake-ups come, the threads of the agent make at most
-- thirteen steps more, and the flag stays off.
pub shutdown_bounded : {n : ℕ} {s t : Threads} → Run n s t → IsOff s → IsOff t × (n ≤ 13)
shutdown_bounded {n} {s} {t} r off =
    let (off', rest) = Run-left r off in (off', omega (arith, left_bound s))
