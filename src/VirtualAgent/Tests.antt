-- ===== src/VirtualAgent/Tests.antt =====
-- Runs of the agent's threads to their end, and the theorems on them.
use virtual_time_synchroniza.Prelude.{ℕ, ◌≡◌, ◌≤◌, refl, true, false, codes, arith}
use virtual_time_synchroniza.Configuration.{default_addresses}
use virtual_time_synchroniza.VirtualAgent.{
  Threads, MainPhase, VirtualTimePhase, MonitorPhase, ServicePhase, Step, Run, Setup, create, start,
  notify_all, still, step,
}
use virtual_time_synchroniza.VirtualAgent.Shutdown.{
  IsOrderly, IsSafe, IsDeadlocked, IsHalted, StaysOrWakes, shutdown-returns, notification_lost,
}

-- The ports of the settings are not used.
other_port : (create default_addresses).udp_port ≡ codes "13211"
unfolding create
other_port = refl

abbrev begun : Threads
begun = start true Setup.all_open

-- A UDP client that cannot be set up leaves the service's thread running behind the end of `start`.
detached : (start true Setup.client_throws).service ≡ ServicePhase.serving
unfolding start
detached = refl

-- The states of an agent that is told to end before its threads have begun.
abbrev told : Threads
told = record begun { is_running = false }

abbrev both_ended : Threads
both_ended = record told { virtual_time = VirtualTimePhase.ended; monitor = MonitorPhase.ended }

abbrev service_stopped : Threads
service_stopped = record both_ended {
  main = MainPhase.joins_service;
  service = ServicePhase.stopped;
}

abbrev all_ended : Threads
all_ended = record both_ended { main = MainPhase.returned; service = ServicePhase.ended }

to_the_end : Run 8 told all_ended
unfolding notify_all start
to_the_end = step (Step.virtual_time_tests told refl) (
    step (Step.monitor_tests (record told { virtual_time = VirtualTimePhase.ended }) refl) (
      step (Step.main_joins_monitor both_ended refl refl) (
        step (Step.main_notifies (record both_ended { main = MainPhase.notifies }) refl) (
          step
            (Step.main_joins_virtual_time
              (record both_ended { main = MainPhase.joins_virtual_time }) refl refl)
            (step
              (Step.main_stops_service (record both_ended { main = MainPhase.stops_service }) refl)
              (step (Step.service_ends service_stopped refl) (
                step
                  (Step.main_joins_service (record service_stopped { service = ServicePhase.ended })
                    refl refl)
                  (still all_ended))))))))

told-IsOrderly : IsOrderly told
unfolding IsOrderly start
told-IsOrderly = refl

told-IsSafe : IsSafe told
unfolding start
told-IsSafe = ground arith

shutdown-returns_example : (8 ≤ 13) × (IsHalted all_ended → all_ended.main ≡ MainPhase.returned)
shutdown-returns_example = shutdown-returns told-IsOrderly told-IsSafe to_the_end

-- The signal came between the virtual time thread's test and its wait.
abbrev unlucky : Threads
unlucky = record both_ended { main = MainPhase.notifies; virtual_time = VirtualTimePhase.entering }

unlucky-IsOrderly : IsOrderly unlucky
unfolding IsOrderly start
unlucky-IsOrderly = (refl, refl)

notification_lost_example :
    (t : Threads) × Run 2 unlucky t
    × IsDeadlocked t
    × IsHalted t
    × ((n : ℕ) (u : Threads) (r : Run n t u) → StaysOrWakes r)
notification_lost_example = notification_lost unlucky unlucky-IsOrderly refl refl refl
