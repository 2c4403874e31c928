-- ===== src/Cmd/Startup.antt =====
-- cmd/conmon/server.go: what `runServer` does before it serves: the monitors of the configuration are saved
-- and scheduled, and then the targets of the storage. What goes wrong in each saving, and the clock, are
-- arguments.
pub mod Scheduled
use gi_con_mon.Config.{MonitorSpec}
use gi_con_mon.Model.{FloatOps, Target, Time}
use gi_con_mon.Storage.{TargetQuery, Result, Page, StoreError, Fault, ok, err}
use gi_con_mon.Common.{
  [], ◌∷◌, String, if◌then◌else◌, Option, pos, List, ℕ, str_eq, some, none, ◌+◌,
}
use gi_con_mon.Storage.Store.{Store}
use gi_con_mon.Probe.Scheduler.{Scheduler, add}
use gi_con_mon.Cmd.Targets.{spec_to_target}

-- `nodeID`
unfoldable pub node_id_of : String → String
node_id_of id = if str_eq id "" then "local" else id

-- The query for the stored targets.
abbrev pub all_targets : TargetQuery
all_targets = record {
  tags = [];
  statuses = [];
  protocol = "";
  search = "";
  limit = pos 10_000;
  offset = pos 0;
}

module _ {F : Type 0} ⦃fl : FloatOps F⦄ (S : Store F) where
  -- A target is scheduled unless its saving failed.
  abbrev pub add_saved : Option StoreError → Target F → Scheduler F → Scheduler F
  add_saved none t scheduler = add t scheduler
  add_saved (some e) t scheduler = scheduler

  -- The loop over the monitors, the first of them with the number `i`.
  unfoldable pub start_monitors :
      (ℕ → Fault)
      → (ℕ → Time)
      → ℕ
      → List (MonitorSpec F)
      → S.State
      → Scheduler F
      → S.State × Scheduler F
  unfolding spec_to_target
  start_monitors faults times i [] store scheduler = (store, scheduler)
  start_monitors faults times i (spec ∷ specs) store scheduler =
      let (store', error, t) = S.save_target (faults i) (times i) (spec_to_target spec) store in
      start_monitors faults times (i + 1) specs store' (add_saved error t scheduler)

  -- The loop over the stored targets.
  unfoldable pub add_all : List (Target F) → Scheduler F → Scheduler F
  add_all [] scheduler = scheduler
  add_all (t ∷ targets) scheduler = add_all targets (add t scheduler)

  abbrev pub add_listed : Result (Page (Target F)) → Scheduler F → Scheduler F
  add_listed (ok page) scheduler = add_all page.items scheduler
  add_listed (err e) scheduler = scheduler

  -- Both loops.
  unfoldable pub start_up :
      (ℕ → Fault)
      → (ℕ → Time)
      → Fault
      → Fault
      → List (MonitorSpec F)
      → S.State
      → Scheduler F
      → S.State × Scheduler F
  unfolding start_monitors add_all
  start_up faults times count_fault data_fault specs store scheduler =
      let (store', scheduler') = start_monitors faults times 0 specs store scheduler in
      (store', add_listed (S.list_targets count_fault data_fault all_targets store') scheduler')
