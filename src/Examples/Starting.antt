-- ===== src/Examples/Starting.antt =====
-- The start of cmd/conmon/server.go with two monitors, of which the saving of the second fails.
use gi_con_mon.Config.{MonitorSpec}
use gi_con_mon.Storage.{Fault}
use gi_con_mon.Common.{[], ◌∷◌, ◌==◌, none, List, ℕ, ◌+◌, if◌then◌else◌, pos, some}
use gi_con_mon.Probe.Scheduler.{Scheduler, new_scheduler}
use gi_con_mon.Cmd.Startup.{start_up, all_targets}
use gi_con_mon.Cmd.Startup.Scheduled.{Watched, Listed, start_up-Watched}
use gi_con_mon.Examples.Samples.{milli}
use gi_con_mon.Examples.Commands.{monitor}
use gi_con_mon.Examples.Storing.{store, nothing_stored, store-IsStore}

abbrev second_fails : ℕ → Fault
second_fails i = if i == 1 then some "disk full" else none

abbrev monitors : List (MonitorSpec ℕ)
monitors = monitor ∷ record monitor { id = "db"; name = "db" } ∷ []

abbrev started : store.State × Scheduler ℕ
started =
    start_up store second_fails (λ i. i + 1) none none monitors nothing_stored
      (new_scheduler (pos 4) "local")

start_up-Watched_example :
    Watched store store-IsStore second_fails 0 monitors started
    × Listed store store-IsStore (store.list_targets none none all_targets started.0) started.1
start_up-Watched_example =
    start_up-Watched store store-IsStore second_fails (λ i. i + 1) none none monitors nothing_stored
      (new_scheduler (pos 4) "local")
