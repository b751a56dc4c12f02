-- ===== src/VirtualAgent/Shutdown.antt =====
-- How the agent ends after SIGTERM, and how it may fail to.
use virtual_time_synchroniza.Prelude.{ℕ, suc, ◌<◌, ◌≤◌, ◌≡◌, ◌≢◌, refl, ◌⊎◌, inl, inr, arith}
use virtual_time_synchroniza.VirtualAgent.{
  Threads, MainPhase, VirtualTimePhase, MonitorPhase, ServicePhase, Step, Event, Run, notify_all,
  still, step, event,
}
use virtual_time_synchroniza.VirtualAgent.Countdown.{IsOff, receive_off, shutdown_bounded}

-- What the main thread knows of the others by the point that it has reached.
unfoldable pub IsOrderly : Threads → Type 0
IsOrderly s = elim s.main [
  | MainPhase.joins_monitor ↦ s.service ≡ ServicePhase.serving
  | MainPhase.notifies ↦ (s.monitor ≡ MonitorPhase.ended) × (s.service ≡ ServicePhase.serving)
  | MainPhase.joins_virtual_time ↦
      (s.monitor ≡ MonitorPhase.ended) × (s.service ≡ ServicePhase.serving)
  | MainPhase.stops_service ↦
      (s.monitor ≡ MonitorPhase.ended)
      × (s.virtual_time ≡ VirtualTimePhase.ended)
      × (s.service ≡ ServicePhase.serving)
  | MainPhase.joins_service ↦
      (s.monitor ≡ MonitorPhase.ended)
      × (s.virtual_time ≡ VirtualTimePhase.ended)
      × (s.service ≢ ServicePhase.serving)
  | MainPhase.returned ↦
      (s.monitor ≡ MonitorPhase.ended)
      × (s.virtual_time ≡ VirtualTimePhase.ended)
      × (s.service ≡ ServicePhase.ended)
]

Step-IsOrderly : {s t : Threads} → Step s t → IsOrderly s → IsOrderly t
unfolding IsOrderly notify_all
Step-IsOrderly (Step.virtual_time_tests s at) ok = ground arith
Step-IsOrderly (Step.virtual_time_waits s at) ok = ground arith
Step-IsOrderly (Step.virtual_time_adjusts s at) ok = ground arith
Step-IsOrderly (Step.monitor_tests s at) ok = ground arith
Step-IsOrderly (Step.monitor_measures s at) ok = ground arith
Step-IsOrderly (Step.main_joins_monitor s at ended) ok = ground arith
Step-IsOrderly (Step.main_notifies s at) ok = ground arith
Step-IsOrderly (Step.main_joins_virtual_time s at ended) ok = ground arith
Step-IsOrderly (Step.main_stops_service s at) ok = ground arith
Step-IsOrderly (Step.service_ends s at) ok = ground arith
Step-IsOrderly (Step.main_joins_service s at ended) ok = ground arith

Event-IsOrderly : {s t : Threads} → Event s t → IsOrderly s → IsOrderly t
unfolding IsOrderly notify_all
Event-IsOrderly (Event.signals s sig) ok = ground arith
Event-IsOrderly (Event.message s at) ok = ground arith
Event-IsOrderly (Event.wakes_up s at) ok = ground arith

pub Run-IsOrderly : {n : ℕ} {s t : Threads} → Run n s t → IsOrderly s → IsOrderly t
Run-IsOrderly (still s) ok = ok
Run-IsOrderly (step d r) ok = Run-IsOrderly r (Step-IsOrderly d ok)
Run-IsOrderly (event d r) ok = Run-IsOrderly r (Event-IsOrderly d ok)

-- The main thread waits for the virtual time thread, and that one for a notification.
abbrev pub IsDeadlocked : Threads → Type 0
IsDeadlocked s =
    (s.main ≡ MainPhase.joins_virtual_time) × (s.virtual_time ≡ VirtualTimePhase.waiting)

-- A state in which no thread can go on.
abbrev pub IsHalted : Threads → Type 0
IsHalted s = (t : Threads) → ¬ Step s t

-- A halted agent has returned or is deadlocked.
pub halted_lem :
    (s : Threads) → IsOrderly s → IsHalted s → (s.main ≡ MainPhase.returned) ⊎ IsDeadlocked s
unfolding IsOrderly
halted_lem s ok halted =
    let no_test : s.virtual_time ≢ VirtualTimePhase.testing =
      (λ at. halted _ (Step.virtual_time_tests s at)) in
    let no_wait : s.virtual_time ≢ VirtualTimePhase.entering =
      (λ at. halted _ (Step.virtual_time_waits s at)) in
    let no_round : s.virtual_time ≢ VirtualTimePhase.adjusting =
      (λ at. halted _ (Step.virtual_time_adjusts s at)) in
    let no_monitor_test : s.monitor ≢ MonitorPhase.testing =
      (λ at. halted _ (Step.monitor_tests s at)) in
    let no_measure : s.monitor ≢ MonitorPhase.measuring =
      (λ at. halted _ (Step.monitor_measures s at)) in
    let no_join_monitor : (s.main ≡ MainPhase.joins_monitor) → (s.monitor ≢ MonitorPhase.ended) =
      (λ at e. halted _ (Step.main_joins_monitor s at e)) in
    let no_notify : s.main ≢ MainPhase.notifies = (λ at. halted _ (Step.main_notifies s at)) in
    let no_join : (s.main ≡ MainPhase.joins_virtual_time)
        → (s.virtual_time ≢ VirtualTimePhase.ended) =
      (λ at e. halted _ (Step.main_joins_virtual_time s at e)) in
    let no_stop : s.main ≢ MainPhase.stops_service =
      (λ at. halted _ (Step.main_stops_service s at)) in
    let no_end : s.service ≢ ServicePhase.stopped = (λ at. halted _ (Step.service_ends s at)) in
    let no_join_service : (s.main ≡ MainPhase.joins_service) → (s.service ≢ ServicePhase.ended) =
      (λ at e. halted _ (Step.main_joins_service s at e)) in
    ground arith

-- The flag is off and the virtual time thread will see it, or be notified.
abbrev pub IsSafe : Threads → Type 0
IsSafe s =
    IsOff s
    × (s.virtual_time ≢ VirtualTimePhase.entering)
    × ((s.main ≡ MainPhase.joins_virtual_time) → (s.virtual_time ≢ VirtualTimePhase.waiting))

Step-IsSafe : {s t : Threads} → Step s t → IsSafe s → IsSafe t
unfolding notify_all
Step-IsSafe (Step.virtual_time_tests s at) (off, ne, im) = ground arith
Step-IsSafe (Step.virtual_time_waits s at) (off, ne, im) = ground arith
Step-IsSafe (Step.virtual_time_adjusts s at) (off, ne, im) = ground arith
Step-IsSafe (Step.monitor_tests s at) (off, ne, im) = ground arith
Step-IsSafe (Step.monitor_measures s at) (off, ne, im) = ground arith
Step-IsSafe (Step.main_joins_monitor s at ended) (off, ne, im) = ground arith
Step-IsSafe (Step.main_notifies s at) (off, ne, im) = ground arith
Step-IsSafe (Step.main_joins_virtual_time s at ended) (off, ne, im) = ground arith
Step-IsSafe (Step.main_stops_service s at) (off, ne, im) = ground arith
Step-IsSafe (Step.service_ends s at) (off, ne, im) = ground arith
Step-IsSafe (Step.main_joins_service s at ended) (off, ne, im) = ground arith

Event-IsSafe : {s t : Threads} → Event s t → IsSafe s → IsSafe t
unfolding notify_all
Event-IsSafe (Event.signals s sig) (off, ne, im) = (rw off (receive_off sig), ne, im)
Event-IsSafe (Event.message s at) (off, ne, im) = ground arith
Event-IsSafe (Event.wakes_up s at) (off, ne, im) = ground arith

Run-IsSafe : {n : ℕ} {s t : Threads} → Run n s t → IsSafe s → IsSafe t
Run-IsSafe (still s) safe = safe
Run-IsSafe (step d r) safe = Run-IsSafe r (Step-IsSafe d safe)
Run-IsSafe (event d r) safe = Run-IsSafe r (Event-IsSafe d safe)

-- In a state that is in order (IsOrderly, as every state of a start whose sockets were opened), where
-- SIGTERM has put the flag off while the virtual time thread is not between the test of the flag and its
-- wait, nor already left waiting behind the notification of the main thread: every run has thirteen steps
-- at most, and where it goes on until no thread can step any more, the main thread has returned.
pub shutdown-returns :
    {n : ℕ} {s t : Threads}
    → IsOrderly s
    → IsSafe s
    → Run n s t
    → (n ≤ 13) × (IsHalted t → t.main ≡ MainPhase.returned)
shutdown-returns {n} {s} {t} ok safe r =
    let safe' = Run-IsSafe r safe in
    let ends : IsHalted t → t.main ≡ MainPhase.returned =
      (λ halted. let cases = halted_lem t (Run-IsOrderly r ok) halted in ground arith) in
    ((shutdown_bounded r safe.0).1, ends)

deadlocked-IsHalted : {s t : Threads} → IsOrderly s → IsDeadlocked s → ¬ Step s t
unfolding IsOrderly
deadlocked-IsHalted ok (main, vt) (Step.virtual_time_tests s at) = ground arith
deadlocked-IsHalted ok (main, vt) (Step.virtual_time_waits s at) = ground arith
deadlocked-IsHalted ok (main, vt) (Step.virtual_time_adjusts s at) = ground arith
deadlocked-IsHalted ok (main, vt) (Step.monitor_tests s at) = ground arith
deadlocked-IsHalted ok (main, vt) (Step.monitor_measures s at) = ground arith
deadlocked-IsHalted ok (main, vt) (Step.main_joins_monitor s at ended) = ground arith
deadlocked-IsHalted ok (main, vt) (Step.main_notifies s at) = ground arith
deadlocked-IsHalted ok (main, vt) (Step.main_joins_virtual_time s at ended) = ground arith
deadlocked-IsHalted ok (main, vt) (Step.main_stops_service s at) = ground arith
deadlocked-IsHalted ok (main, vt) (Step.service_ends s at) = ground arith
deadlocked-IsHalted ok (main, vt) (Step.main_joins_service s at ended) = ground arith

-- How often, in a run, the virtual time thread is notified from outside, or wakes up without a notification.
pub wake_ups : {n : ℕ} {s t : Threads} → Run n s t → ℕ
wake_ups (still s) = 0
wake_ups (step d r) = wake_ups r
wake_ups (event (Event.signals s sig) r) = wake_ups r
wake_ups (event (Event.message s at) r) = suc (wake_ups r)
wake_ups (event (Event.wakes_up s at) r) = suc (wake_ups r)

-- A run of a deadlocked agent makes no step and leaves it deadlocked, or has a wake-up; then it has
-- thirteen steps at most, and has returned where no thread can go on.
abbrev pub StaysOrWakes : {n : ℕ} {s t : Threads} → Run n s t → Type 0
StaysOrWakes {n} {s} {t} r =
    ((wake_ups r ≡ 0) × (n ≡ 0) × IsDeadlocked t)
    ⊎ ((0 < wake_ups r) × (n ≤ 13) × (IsHalted t → t.main ≡ MainPhase.returned))

deadlocked_run :
    {n : ℕ} {s t : Threads} (r : Run n s t)
    → IsOrderly s
    → IsOff s
    → IsDeadlocked s
    → StaysOrWakes r
unfolding wake_ups notify_all
deadlocked_run (still s) ok off dead = inl (refl, refl, dead)
deadlocked_run (step d r) ok off dead = absurd (deadlocked-IsHalted ok dead d)
deadlocked_run (event (Event.signals s sig) r) ok off dead =
    deadlocked_run r (Event-IsOrderly (Event.signals s sig) ok) (rw off (receive_off sig)) dead
deadlocked_run (event (Event.message s at) r) ok off (main, vt) =
    let (bound, ends) =
      shutdown-returns (Event-IsOrderly (Event.message s at) ok)
        (off, ground arith, λ joins. ground arith) r in
    inr (omega arith, bound, ends)
deadlocked_run (event (Event.wakes_up s at) r) ok off (main, vt) =
    let (bound, ends) =
      shutdown-returns (Event-IsOrderly (Event.wakes_up s at) ok)
        (off, ground arith, λ joins. ground arith) r in
    inr (omega arith, bound, ends)

-- Where the main thread comes to its one notification while the virtual time thread has found the flag
-- on and does not wait yet, the notification is lost, though the flag is off: after the two steps main waits
-- for the virtual time thread and that one for a notification, and no thread can go on. It stays so in every
-- run, whatever signals come, until a message changes the TDF or the wait returns without a notification. A
-- run with such a wake-up has thirteen steps at most, and where it goes on until no thread can step, main has
-- returned.
pub notification_lost :
    (s : Threads)
    → IsOrderly s
    → IsOff s
    → s.main ≡ MainPhase.notifies
    → s.virtual_time ≡ VirtualTimePhase.entering
    → (t : Threads) × Run 2 s t
      × IsDeadlocked t
      × IsHalted t
      × ((n : ℕ) (u : Threads) (r : Run n t u) → StaysOrWakes r)
unfolding notify_all
notification_lost s ok off main at =
    let notified : Threads = record s {
      main = MainPhase.joins_virtual_time;
      virtual_time = notify_all s.virtual_time;
    } in
    let entering : notified.virtual_time ≡ VirtualTimePhase.entering = rw at refl in
    let notifies = Step.main_notifies s main in
    let waits = Step.virtual_time_waits notified entering in
    let ok' = Step-IsOrderly waits (Step-IsOrderly notifies ok) in
    (
      record notified { virtual_time = VirtualTimePhase.waiting },
      step notifies (step waits (still _)),
      (refl, refl),
      λ t d. deadlocked-IsHalted ok' (refl, refl) d,
      λ n u r. deadlocked_run r ok' off (refl, refl),
    )
