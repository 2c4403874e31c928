-- ===== src/Probe/Scheduler.antt =====
-- internal/probe/probe.go: `Scheduler`. A timer of the Go runtime is known by the identifier of the
-- target that it probes and a fresh number; the timers that may still fire and the calls of `runOnce`
-- that have started and not ended are part of the state. Starting and ending a run are two steps; the
-- look-up of the prober, in a registry that is filled at start-up, is taken with the end.
pub mod Lives
pub mod Alive
pub mod Interval
pub mod Chains
pub mod Once
pub mod Inner
pub mod Stopped
use gi_con_mon.Common.{
  String, Bool, true, false, not, ◌&&◌, Option, none, some, List, [], ◌∷◌, ℕ, ◌+◌, ◌==◌, ℤ, pos,
  int_ltb, int_leb, if◌then◌else◌, str_eq, Assoc, lookup, insert, delete, keep, scale, wrap, ◌*◌,
}
use gi_con_mon.Model.{
  Time, Duration, nanoseconds_per_second, truncated, FloatOps, Target, ProbeResult,
}
use gi_con_mon.Probe.Registry.{Registry, Prober, Answer, answered, failed, get}

-- `Executor`; the scheduler makes one and never submits to it.
pub record Executor : Type 0 where
  pub capacity : ℤ

-- `NewExecutor`
unfoldable pub new_executor : ℤ → Executor
new_executor concurrency = record {
  capacity = if int_leb concurrency (pos 0) then pos 100 else concurrency;
}

-- A timer that runs `runOnce` for the target, or the run that it started.
pub record Timer (F : Type 0) : Type 0 where
  pub number : ℕ
  pub target : Target F
  pub wait : Duration

-- `Scheduler`, without the handler, whose calls are returned.
pub record Scheduler (F : Type 0) : Type 0 where
  pub targets : Assoc (Target F)
  pub timers : Assoc ℕ
  pub executor : Executor
  pub node_id : String
  pub pending : List (Timer F)
  pub running : List (Timer F)
  pub next : ℕ

module _ {F : Type 0} where
  -- `NewScheduler`
  unfoldable pub new_scheduler : ℤ → String → Scheduler F
  unfolding new_executor
  new_scheduler concurrency node_id = record {
    targets = [];
    timers = [];
    executor = new_executor concurrency;
    node_id = node_id;
    pending = [];
    running = [];
    next = 0;
  }

  -- `time.Duration(t.IntervalSec) * time.Second`
  unfoldable pub interval_of : Target F → Duration
  unfolding wrap
  interval_of t = wrap (scale t.interval_sec nanoseconds_per_second)

  abbrev pub is_timer : String → ℕ → Timer F → Bool
  is_timer id n p = str_eq p.target.id id && (p.number == n)

  -- `timer.Stop()`: a timer that has fired is not in the list any more, and its run goes on.
  unfoldable pub stop_timer : String → ℕ → Scheduler F → Scheduler F
  stop_timer id n s = record s { pending = keep (λ p. not (is_timer id n p)) s.pending }

  -- The entry of the map `timers`, stopped where there is one.
  unfoldable pub stop_old : String → Scheduler F → Scheduler F
  unfolding stop_timer
  stop_old id s = elim (lookup id s.timers) [ none ↦ s | some n ↦ stop_timer id n s ]

  -- `s.timers[t.ID] = time.AfterFunc(d, func() { s.runOnce(t) })`
  unfoldable pub start_timer : Target F → Duration → Scheduler F → Scheduler F
  start_timer t d s = record s {
    pending = record { number = s.next; target = t; wait = d } ∷ s.pending;
    timers = insert t.id s.next s.timers;
    next = s.next + 1;
  }

  -- `Add`
  unfoldable pub add : Target F → Scheduler F → Scheduler F
  unfolding stop_old start_timer interval_of
  add t s =
      let s' = stop_old t.id s in
      start_timer t (interval_of t) (record s' { targets = insert t.id t s'.targets })

  -- `Remove`
  unfoldable pub remove : String → Scheduler F → Scheduler F
  unfolding stop_old
  remove id s =
      let s' = stop_old id s in
      record s' { timers = delete id s'.timers; targets = delete id s'.targets }

  -- The loop of `Stop` over the map of timers.
  unfoldable pub stop_all : Assoc ℕ → Scheduler F → Scheduler F
  unfolding stop_timer
  stop_all [] s = s
  stop_all ((id, n) ∷ m) s = stop_all m (stop_timer id n s)

  -- `Stop`
  unfoldable pub stop : Scheduler F → Scheduler F
  unfolding stop_all
  stop s = stop_all s.timers s

  -- The wait of `reschedule`.
  unfoldable pub next_wait : Target F → Bool → Duration
  unfolding interval_of
  next_wait t success =
      let interval = interval_of t in
      let faster = truncated interval 2 in
      if success
      then interval
      else if int_ltb faster (pos (5 * nanoseconds_per_second))
      then pos (5 * nanoseconds_per_second)
      else faster

  -- `reschedule`
  unfoldable pub reschedule : Target F → Bool → Scheduler F → Scheduler F
  unfolding start_timer next_wait
  reschedule t success s = elim (lookup t.id s.targets) [
    | none ↦ s
    | some known ↦ start_timer t (next_wait t success) s
  ]

  -- Takes the first timer with this identifier and number out of a list.
  unfoldable pub take_timer : String → ℕ → List (Timer F) → Option (Timer F × List (Timer F))
  take_timer id n [] = none
  take_timer id n (p ∷ ps) =
      let rest = take_timer id n ps in
      if is_timer id n p
      then some (p, ps)
      else elim rest [ none ↦ none | some (q, qs) ↦ some (q, p ∷ qs) ]

  -- A timer fires, and its run of `runOnce` starts.
  unfoldable pub fire : String → ℕ → Scheduler F → Scheduler F
  fire id n s = elim (take_timer id n s.pending) [
    | none ↦ s
    | some (p, rest) ↦ record s { pending = rest; running = p ∷ s.running }
  ]

module _ {F : Type 0} ⦃fl : FloatOps F⦄ where
  -- The result that `runOnce` makes of an error.
  unfoldable pub error_result : Time → String → Target F → String → ProbeResult F
  error_result now node_id t msg = record {
    target_id = t.id;
    probe_node_id = node_id;
    seq = pos 0;
    timestamp = now;
    success = false;
    latency_ms = fl.zero;
    status_code = pos 0;
    error_code = "probe_error";
    error_msg = msg;
    detail = [];
  }

  abbrev pub result_of : Time → String → Target F → Answer F → ProbeResult F
  result_of now node_id t (answered r) = r
  result_of now node_id t (failed msg) = error_result now node_id t msg

  -- The result that `runOnce` hands to its handler; none without a prober for the protocol.
  unfoldable pub run_result : Time → Registry F → String → Target F → Option (ProbeResult F)
  unfolding get error_result
  run_result now probers node_id t = elim (get t.protocol probers) [
    | none ↦ none
    | some p ↦
        some (record (result_of now node_id t (p.probe t)) {
          target_id = t.id;
          probe_node_id = node_id;
        })
  ]

  abbrev pub is_success : Option (ProbeResult F) → Bool
  is_success none = false
  is_success (some r) = r.success

  -- The rest of `runOnce`: a run ends, its result goes to the handler and the target is rescheduled.
  unfoldable pub finish :
      Time → Registry F → String → ℕ → Scheduler F → Scheduler F × Option (ProbeResult F)
  unfolding run_result reschedule
  finish now probers id n s = elim (take_timer id n s.running) [
    | none ↦ (s, none)
    | some (p, rest) ↦
        let result = run_result now probers s.node_id p.target in
        (reschedule p.target (is_success result) (record s { running = rest }), result)
  ]
