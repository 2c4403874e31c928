-- ===== src/Examples/Probing.antt =====
-- The theorems about the scheduler of internal/probe/probe.go at concrete steps.
use gi_con_mon.Examples.Answers.{names, resolves, printing, greets, times}
use gi_con_mon.Probe.Scheduler.Stopped.{stop_ends}
use gi_con_mon.Probe.Registered.Probed.{HasProber, Probed, Skipped, finish-Probed}
use gi_con_mon.Probe.Registered.{Outside, registered}
use gi_con_mon.Probe.Tcp.{Clock, Network}
use gi_con_mon.Common.{
  ◌≡◌, refl, true, false, [], ◌∷◌, List, ◌≤◌, pos, ℕ, lookup, keep, insert, none, ◌⊎◌, some, String,
}
use gi_con_mon.Model.{Target, str, proto_icmp}
use gi_con_mon.Probe.Registry.{Registry, register, answered}
use gi_con_mon.Probe.Scheduler.{
  Scheduler, new_scheduler, add, remove, take_timer, finish, fire, stop, Timer,
}
use gi_con_mon.Probe.Scheduler.Lives.{lives, live_in, is_registered}
use gi_con_mon.Probe.Scheduler.Alive.{
  Step, added, fired, finished, step_all, registered_goes_on, step,
}
use gi_con_mon.Probe.Scheduler.Once.{one_chain}
use gi_con_mon.Examples.Samples.{milli, web, result}

abbrev https : Target ℕ
https = record web { protocol = "https"; interval_sec = pos 30 }

abbrev probers : Registry ℕ
probers = register (record { protocol = "https"; probe = λ t. answered (result 7 false) }) []

-- Registered, probed once, and rescheduled.
abbrev steps : List (Step ℕ)
steps = added https ∷ fired "web" 0 ∷ finished 9 probers "web" 0 ∷ []

still_registered : is_registered "web" (step_all steps (new_scheduler (pos 10) "local")) ≡ true
unfolding is_registered step_all step lookup finish take_timer fire add new_scheduler insert
still_registered = refl

registered_goes_on_example : 1 ≤ lives "web" (step_all steps (new_scheduler (pos 10) "local"))
registered_goes_on_example = registered_goes_on "web" (pos 10) "local" steps still_registered

one_chain_example :
    (lives "web" (step_all steps (new_scheduler (pos 10) "local")) ≤ 1)
    × (live_in "web" (remove "web" (step_all steps (new_scheduler (pos 10) "local"))).pending ≡ 0)
unfolding live_in keep new_scheduler
one_chain_example = one_chain "web" (pos 10) "local" steps ((λ same. refl), (tt, (tt, tt)))

-- The timer of the target is stopped before it fires.
stop_ends_example :
    (live_in "web" (stop (step_all steps (new_scheduler (pos 10) "local"))).pending ≡ 0)
    × (lives "web"
          (step_all (fired "web" 1 ∷ []) (stop (step_all steps (new_scheduler (pos 10) "local"))))
        ≤ live_in "web" (step_all steps (new_scheduler (pos 10) "local")).running)
unfolding live_in keep new_scheduler
stop_ends_example =
    stop_ends "web" (pos 10) "local" steps (fired "web" 1 ∷ []) ((λ same. refl), (tt, (tt, tt)))
      (tt, tt)

-- A target with a port and data to send, over a network that takes both.
abbrev echo : Target ℕ
echo = record web { port = pos 7; probe_config = ("send_data", str "ping") ∷ [] }

abbrev reachable : Network
reachable = record { dial = none; send = none }

abbrev clock : Clock
clock = record { start = 1_000_000; dialled = 3_000_000; done = 4_000_000 }

-- What the network answers to each probe.
abbrev outside : Outside ℕ (List (String × String))
outside = record {
  dns_lib = names;
  dns_exchange = λ t q. resolves q;
  dns_clock = λ t. record { start = 1; ended = 2; done = 3 };
  http_lib = printing;
  http_exchange = λ t request. greets request;
  http_trace = λ t. times;
  tcp_network = λ t. reachable;
  tcp_clock = λ t. clock;
}

abbrev pinged : Timer ℕ
pinged = record { number = 0; target = record web { protocol = "icmp" }; wait = pos 0 }

abbrev pinging : Scheduler ℕ
pinging = record (new_scheduler (pos 10) "local") { running = pinged ∷ [] }

takes_pinged : take_timer "web" 0 pinging.running ≡ some (pinged, [])
unfolding take_timer
takes_pinged = refl

finish-Probed_example :
    ((HasProber "icmp"
        × Probed outside pinged [] pinging (finish 9 (registered outside) "web" 0 pinging))
      ⊎ ((¬ HasProber "icmp")
          × Skipped outside pinged [] pinging (finish 9 (registered outside) "web" 0 pinging)))
    × (¬ HasProber proto_icmp)
finish-Probed_example = finish-Probed outside 9 "web" 0 pinged [] pinging takes_pinged
