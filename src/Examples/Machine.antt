-- ===== src/Examples/Machine.antt =====
-- The theorems about internal/fsm at concrete machines.
use gi_con_mon.Fsm.Runs.History.{LeadsFrom, events_for-LeadsFrom}
use gi_con_mon.Common.{
  ◌≡◌, refl, arith, true, false, some, [], ◌∷◌, List, ◌⊎◌, inl, pos, ◌≤ℤ◌, length, keep, ℕ, eq_iff,
  lookup, insert, increment, saturate, subst, sym, ap,
}
use gi_con_mon.Model.{
  up, down, maintenance, Event, ProbeResult, status_eq, is_active, default_target, sub, TargetState,
  unknown,
}
use gi_con_mon.Fsm.Machine.{
  Fsm, get_or_create, fresh_state, put_state, observe, count_result, update_cert, default_config,
  ewma,
}
use gi_con_mon.Fsm.Flap.{new_flap_tracker, count, record_change, trim, skip_before, history_of}
use gi_con_mon.Fsm.Flap.Window.{within}
use gi_con_mon.Fsm.Flap.History
use gi_con_mon.Fsm.Flap.Log
use gi_con_mon.Fsm.Derive.{
  down_threshold_of, recovery_threshold_of, derive, derive_up, derive_down, derive_from, override,
  is_lossy, is_degraded,
}
use gi_con_mon.Fsm.Process.{
  process, new_fsm, get_state, make_event, detect_flap, conclude, commit_state, build_message,
}
use gi_con_mon.Fsm.Process.Outcome.{StaysQuiet, Reports, process_outcome}
use gi_con_mon.Fsm.Process.Guards.{
  Justified, process-Transition, up_live, down_broken, IsBroken, IsLive,
}
use gi_con_mon.Fsm.Process.Frame.{Untouched, process-Untouched}
use gi_con_mon.Fsm.Runs.{Call, run, run_all}
use gi_con_mon.Fsm.Runs.Counters.{
  Counts, follow_all, no_streak, counters_count_streaks, follow, after_result,
}
use gi_con_mon.Fsm.Runs.Events.{events_for, status_in}
use gi_con_mon.Fsm.Runs.Detection.{enough_failures_reported}
use gi_con_mon.Fsm.Runs.Recovery.{IsBack, enough_successes_reported}
use gi_con_mon.Fsm.Runs.Evidence.{streaks, down_needs_failures, up_needs_successes}
use gi_con_mon.Fsm.Runs.Maintenance.{maintenance_stuck}
use gi_con_mon.Fsm.Runs.Unanswered.{NeverUp, unanswered_reports_nothing}
use gi_con_mon.Examples.Samples.{milli, config, web, serviced, result, probed}

-- An answer and two failures.
abbrev pub two_failures : List (Call ℕ)
two_failures = probed web 1 true ∷ probed web 2 false ∷ probed web 3 false ∷ []

abbrev pub on_the_brink : Fsm ℕ
on_the_brink = run_all two_failures (new_fsm config)

-- The third failure is at 4 s.
abbrev at_4 : ℕ
at_4 = 4_000_000_000

abbrev third : ProbeResult ℕ
third = result at_4 false

abbrev alarm : Event ℕ
alarm =
    make_event "4" third web up down (record (fresh_state 0 "web") { consecutive_fails = pos 3 })
      (pos 3000)

alarm-reported : (process at_4 "4" third web on_the_brink).2 ≡ some alarm
unfolding run_all run process new_fsm new_flap_tracker get_or_create fresh_state lookup insert
    put_state observe count_result update_cert derive derive_up derive_down derive_from override
    down_threshold_of recovery_threshold_of is_lossy is_degraded detect_flap conclude make_event
    commit_state status_eq is_active default_config default_target record_change count trim
    skip_before history_of build_message increment ewma sub saturate
alarm-reported = refl

process_outcome_example :
    StaysQuiet at_4 "4" third web on_the_brink ⊎ Reports at_4 "4" third web on_the_brink
process_outcome_example = process_outcome at_4 "4" third web on_the_brink

process-Transition_example : Justified at_4 "4" third web on_the_brink alarm
process-Transition_example = process-Transition at_4 "4" third web on_the_brink alarm alarm-reported

counters_count_streaks_example :
    Counts "web" (run_all two_failures (new_fsm config)) (follow_all "web" two_failures no_streak)
counters_count_streaks_example = counters_count_streaks "web" config two_failures (omega arith)

down_needs_failures_example :
    down_threshold_of config web ≤ℤ pos (streaks config two_failures at_4 "4" third web).fails
unfolding make_event
down_needs_failures_example =
    down_needs_failures config two_failures at_4 "4" third web alarm (omega arith) alarm-reported
      up_live refl

-- The entry before the same failure, which must be reported.
abbrev pub entry : TargetState ℕ
entry = record (fresh_state 1_000_000_000 "web") {
  status = up;
  last_status = unknown;
  last_probe_at = 3_000_000_000;
  last_success_at = 1_000_000_000;
  consecutive_fails = pos 2;
  avg_latency_ms = 12_000;
  flap_count_10m = pos 1;
}

pub entry-known : get_state "web" on_the_brink ≡ some entry
unfolding run_all run process new_fsm new_flap_tracker get_or_create fresh_state lookup insert
    put_state observe count_result update_cert derive derive_up derive_down derive_from override
    down_threshold_of recovery_threshold_of is_lossy is_degraded detect_flap conclude make_event
    commit_state status_eq is_active default_config default_target record_change count trim
    skip_before history_of build_message increment ewma sub saturate get_state
entry-known = refl

enough_failures_reported_example :
    (e : Event ℕ) × ((process at_4 "4" third web on_the_brink).2 ≡ some e) × IsBroken e.to_status
unfolding follow follow_all after_result override down_threshold_of is_active default_target
enough_failures_reported_example =
    enough_failures_reported config two_failures at_4 "4" third web (omega arith) refl
      (subst IsLive (sym (ap status_in entry-known)) up_live) (omega arith)

process-Untouched_example : Untouched "db" on_the_brink (process at_4 "4" third web on_the_brink).0
process-Untouched_example =
    process-Untouched "db" on_the_brink at_4 "4" third web (ground (arith, eq_iff "web" "db"))

-- Down since 4 s, and one success.
abbrev recovering : List (Call ℕ)
recovering =
    probed web 1 true
    ∷ probed web 2 false
    ∷ probed web 3 false
    ∷ probed web 4 false
    ∷ probed web 5 true
    ∷ []

abbrev second_success : ProbeResult ℕ
second_success = result 6_000_000_000 true

abbrev recovery : Event ℕ
recovery =
    make_event "6" second_success web down up
      (record (fresh_state 0 "web") { consecutive_success = pos 2 }) (pos 2000)

recovery-reported :
    (process 6_000_000_000 "6" second_success web (run_all recovering (new_fsm config))).2
    ≡ some recovery
unfolding run_all run process new_fsm new_flap_tracker get_or_create fresh_state lookup insert
    put_state observe count_result update_cert derive derive_up derive_down derive_from override
    down_threshold_of recovery_threshold_of is_lossy is_degraded detect_flap conclude make_event
    commit_state status_eq is_active default_config default_target record_change count trim
    skip_before history_of build_message increment ewma sub saturate get_state
recovery-reported = refl

down_until_then : status_in (get_state "web" (run_all recovering (new_fsm config))) ≡ down
unfolding run_all run process new_fsm new_flap_tracker get_or_create fresh_state lookup insert
    put_state observe count_result update_cert derive derive_up derive_down derive_from override
    down_threshold_of recovery_threshold_of is_lossy is_degraded detect_flap conclude make_event
    commit_state status_eq is_active default_config default_target record_change count trim
    skip_before history_of build_message increment ewma sub saturate get_state
down_until_then = refl

enough_successes_reported_example :
    (e : Event ℕ) × ((process 6_000_000_000 "6" second_success web
        (run_all recovering (new_fsm config))).2
      ≡ some e)
    × IsBack e.to_status
unfolding follow follow_all after_result override recovery_threshold_of is_active default_target
enough_successes_reported_example =
    enough_successes_reported config recovering 6_000_000_000 "6" second_success web (omega arith)
      refl down_until_then (omega arith)

up_needs_successes_example :
    recovery_threshold_of config web
    ≤ℤ pos (streaks config recovering 6_000_000_000 "6" second_success web).successes
unfolding make_event
up_needs_successes_example =
    up_needs_successes config recovering 6_000_000_000 "6" second_success web recovery (omega arith)
      recovery-reported down_broken refl

-- A window from 10 s to 20 s, and failures behind it.
abbrev in_window : Fsm ℕ
in_window = run_all (probed serviced 1 true ∷ probed serviced 12 true ∷ []) (new_fsm config)

abbrev after_window : List (Call ℕ)
after_window = probed serviced 30 false ∷ probed serviced 40 false ∷ probed serviced 50 false ∷ []

in_window-maintenance : status_in (get_state "web" in_window) ≡ maintenance
unfolding run_all run process new_fsm new_flap_tracker get_or_create fresh_state lookup insert
    put_state observe count_result update_cert derive derive_up derive_down derive_from override
    down_threshold_of recovery_threshold_of is_lossy is_degraded detect_flap conclude make_event
    commit_state status_eq is_active default_config default_target record_change count trim
    skip_before history_of build_message increment ewma sub saturate get_state
in_window-maintenance = refl

maintenance_stuck_example :
    (events_for "web" after_window in_window ≡ [])
    × (status_in (get_state "web" (run_all after_window in_window)) ≡ maintenance)
maintenance_stuck_example =
    maintenance_stuck "web" after_window in_window (tt, (tt, (tt, tt))) in_window-maintenance

-- Four failures from the start.
abbrev unanswered : List (Call ℕ)
unanswered = probed web 1 false ∷ probed web 2 false ∷ probed web 3 false ∷ probed web 4 false ∷ []

unanswered_reports_nothing_example :
    (events_for "web" unanswered (new_fsm config) ≡ [])
    × NeverUp (status_in (get_state "web" (run_all unanswered (new_fsm config))))
unanswered_reports_nothing_example =
    unanswered_reports_nothing "web" unanswered config
      (inl refl, (inl refl, (inl refl, (inl refl, tt))))

-- Changes of two targets, the first of them outside the window at the end.
abbrev changes : List Log.Call
changes = Log.change "web" 1 ∷ Log.change "db" 5 ∷ Log.ask "web" 6 ∷ Log.change "web" 14 ∷ []

count-perform_all_example :
    (count "web" 20 (Log.perform_all changes (new_flap_tracker (pos 10)))).1
    ≡ length (keep (within 10) (Log.log_all "web" changes []))
count-perform_all_example = History.count-perform_all "web" 10 changes 20 (omega arith)

events_for-LeadsFrom_example :
    LeadsFrom "web"
      (status_in (get_state "web" (new_fsm config)))
      (events_for "web" recovering (new_fsm config))
      (status_in (get_state "web" (run_all recovering (new_fsm config))))
unfolding is_active default_target
events_for-LeadsFrom_example =
    events_for-LeadsFrom "web" recovering (new_fsm config)
      (refl, (refl, (refl, (refl, (refl, tt)))))
