-- ===== src/Examples/Flapping.antt =====
-- The theorem about FLAPPING of internal/fsm/fsm.go at a concrete machine.
use gi_con_mon.Fsm.Runs.Evidence.{cfg-run_all}
use gi_con_mon.Fsm.Flap.Pace.{Dense}
use gi_con_mon.Model.{is_active, default_target, status_eq, flapping, sub}
use gi_con_mon.Common.{
  List, arith, lookup, ◌≡◌, [], insert, suc, ℕ, subst, sym, true, ◌*◌, refl, zero, ◌∷◌, false,
  increment, saturate, ◌∙◌, ◌≤ℤ◌, pos,
}
use gi_con_mon.Fsm.Runs.Flapping.{
  IsFlapping, Paced, paced_probe, paced_end, flapping_stuck, window-run_all,
}
use gi_con_mon.Fsm.Runs.{Call, run_all, run}
use gi_con_mon.Fsm.Process.{
  process, new_fsm, get_state, make_event, detect_flap, conclude, commit_state, build_message,
}
use gi_con_mon.Fsm.Machine.{
  Fsm, get_or_create, fresh_state, put_state, observe, count_result, update_cert, default_config,
  ewma,
}
use gi_con_mon.Fsm.Flap.{new_flap_tracker, count, record_change, trim, skip_before, history_of}
use gi_con_mon.Fsm.Derive.{
  down_threshold_of, recovery_threshold_of, derive, derive_up, derive_down, derive_from, override,
  is_lossy, is_degraded,
}
use gi_con_mon.Fsm.Runs.Events.{events_for, status_in}
use gi_con_mon.Examples.Samples.{milli, config, web, probed}

-- An answer, and then twice an outage of three results and two answers.
abbrev unsteady : List (Call ℕ)
unsteady =
    probed web 1 true
    ∷ probed web 2 false
    ∷ probed web 3 false
    ∷ probed web 4 false
    ∷ probed web 5 true
    ∷ probed web 6 true
    ∷ probed web 7 false
    ∷ probed web 8 false
    ∷ probed web 9 false
    ∷ probed web 10 true
    ∷ probed web 11 true
    ∷ []

abbrev shaky : Fsm ℕ
shaky = run_all unsteady (new_fsm config)

abbrev seconds : ℕ → ℕ
seconds n = n * 1_000_000_000

shaky_status : status_in (get_state "web" shaky) ≡ flapping
unfolding run_all run process new_fsm new_flap_tracker get_or_create fresh_state lookup insert
    put_state observe count_result update_cert derive derive_up derive_down derive_from override
    down_threshold_of recovery_threshold_of is_lossy is_degraded detect_flap conclude make_event
    commit_state status_eq is_active default_config default_target record_change count trim
    skip_before history_of build_message increment ewma sub saturate get_state
shaky_status = refl

abbrev changes : List ℕ
changes = seconds 1 ∷ seconds 4 ∷ seconds 6 ∷ seconds 9 ∷ seconds 11 ∷ []

shaky_history : history_of shaky.flapper "web" ≡ changes
unfolding run_all run process new_fsm new_flap_tracker get_or_create fresh_state lookup insert
    put_state observe count_result update_cert derive derive_up derive_down derive_from override
    down_threshold_of recovery_threshold_of is_lossy is_degraded detect_flap conclude make_event
    commit_state status_eq is_active default_config default_target record_change count trim
    skip_before history_of build_message increment ewma sub saturate get_state
shaky_history = refl

changes-Dense : Dense (seconds 3) 4 (seconds 11) changes
unfolding skip_before
changes-Dense zero h = omega arith
changes-Dense (suc zero) h = omega arith
changes-Dense (suc (suc zero)) h = omega arith
changes-Dense (suc (suc (suc zero))) h = omega arith
changes-Dense (suc (suc (suc (suc j)))) h = omega (arith, h)

shaky-IsFlapping : IsFlapping (seconds 3) 4 (seconds 600) "web" (seconds 11) shaky
shaky-IsFlapping = record {
  status_is = shaky_status;
  width =
      window-run_all unsteady (new_fsm config)
      ∙ (unfold new_fsm new_flap_tracker default_config in refl);
  limit =
      subst (λ c. c.flap_threshold ≤ℤ pos 5)
        (sym (cfg-run_all config unsteady (new_fsm config) (unfold new_fsm in refl)))
        (unfold default_config in omega arith);
  dense = subst (Dense (seconds 3) 4 (seconds 11)) (sym shaky_history) changes-Dense;
}

-- From now on there are two answers and a failure, 3 s apart or less.
abbrev steady : List (Call ℕ)
steady = probed web 12 true ∷ probed web 15 true ∷ probed web 18 false ∷ []

steady-Paced : Paced "web" (seconds 3) (seconds 11) steady
unfolding is_active default_target
steady-Paced = paced_probe refl refl (omega arith) (omega arith) (
    paced_probe refl refl (omega arith) (omega arith)
      (paced_probe refl refl (omega arith) (omega arith) paced_end))

flapping_stuck_example :
    (events_for "web" steady shaky ≡ [])
    × (status_in (get_state "web" (run_all steady shaky)) ≡ flapping)
flapping_stuck_example =
    flapping_stuck (seconds 3) 4 (seconds 600) (omega arith) "web" shaky steady-Paced
      shaky-IsFlapping
