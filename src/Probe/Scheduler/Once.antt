-- ===== src/Probe/Scheduler/Once.antt =====
-- That the scheduler of internal/probe/probe.go probes a target in one chain of timers and runs.
use gi_con_mon.Common.{
  String, ◌≡◌, arith, Bool, Option, none, some, List, [], ◌∷◌, ℕ, ◌+◌, ◌≤◌, str_eq, eq_iff, lookup,
  Option-cases, Bool-cases, inl, inr, subst, Assoc, ℤ, keep,
}
use gi_con_mon.Model.{Time, FloatOps, Target}
use gi_con_mon.Probe.Registry.{Registry}
use gi_con_mon.Probe.Scheduler.{
  Timer, Scheduler, is_timer, add, remove, reschedule, take_timer, fire, finish, next_wait,
  new_scheduler, stop_old,
}
use gi_con_mon.Probe.Scheduler.Lives.{lives, live_in, Conserved, take_timer-Conserved}
use gi_con_mon.Probe.Scheduler.Alive.{
  Step, added, removed, fired, finished, step, step_all, lives-add,
}
use gi_con_mon.Probe.Scheduler.Chains.{
  InMap, Single, Single-start_self, Single-start_other, Single-add, Single-remove, pending-remove,
  running-stop_old,
}

module _ {F : Type 0} (id : String) where
  -- The timers that are left are in the map as they were.
  abbrev LeftInMap : Assoc ℕ → Option (Timer F × List (Timer F)) → Type 0
  LeftInMap timers none = Unit
  LeftInMap timers (some (p, rest)) = InMap id timers rest

  take_timer-LeftInMap :
      (j : String) (n : ℕ) (timers : Assoc ℕ) (ps : List (Timer F))
      → InMap id timers ps
      → LeftInMap timers (take_timer j n ps)
  unfolding take_timer
  take_timer-LeftInMap j n timers [] h = tt
  take_timer-LeftInMap j n timers (q ∷ qs) h = elim (Bool-cases (is_timer j n q)) [
    | inl mine ↦ rw mine h.1
    | inr other ↦ rw other (elim (Option-cases (take_timer j n qs)) [
      | inl missing ↦ rw (missing, take_timer) tt
      | inr ((p, rest), found) ↦
          rw (found, take_timer)
            (h.0, subst (LeftInMap timers) found (take_timer-LeftInMap j n timers qs h.1))
    ])
  ]

  moved_one :
      (p : Timer F) (rest : List (Timer F)) (s : Scheduler F)
      → live_in id (p ∷ rest) ≡ live_in id s.pending
      → live_in id s.pending + live_in id s.running ≤ 1
      → live_in id rest + live_in id (p ∷ s.running) ≤ 1
  unfolding live_in keep
  moved_one p rest s e h = ground arith

  Single-fire : (j : String) (n : ℕ) (s : Scheduler F) → Single id s → Single id (fire j n s)
  unfolding fire
  Single-fire j n s h = elim (Option-cases (take_timer j n s.pending)) [
    | inl missing ↦ rw (missing, fire) h
    | inr ((p, rest), found) ↦
        rw (found, fire)
          (record {
            known =
                subst (LeftInMap s.timers) found
                  (take_timer-LeftInMap j n s.timers s.pending h.known);
            one =
                moved_one p rest s
                  (subst (Conserved id s.pending) found (take_timer-Conserved id j n s.pending))
                  h.one;
          })
  ]

  ended_self :
      (p : Timer F) (rest : List (Timer F)) (s : Scheduler F)
      → live_in id (p ∷ rest) ≡ live_in id s.running
      → p.target.id ≡ id
      → Single id s
      → (live_in id s.pending ≡ 0) × (live_in id rest ≡ 0)
  unfolding live_in keep
  ended_self p rest s e same h = ground (arith, h.one, eq_iff p.target.id id)

  ended :
      (p : Timer F) (rest : List (Timer F)) (s : Scheduler F)
      → live_in id (p ∷ rest) ≡ live_in id s.running
      → Single id s
      → Single id (record s { running = rest })
  ended p rest s e h = record {
    known = h.known;
    one = unfold live_in keep in ground (arith, h.one);
  }

  Single-reschedule :
      (p : Timer F) (rest : List (Timer F)) (success : Bool) (s : Scheduler F)
      → live_in id (p ∷ rest) ≡ live_in id s.running
      → Single id s
      → Single id (reschedule p.target success (record s { running = rest }))
  unfolding reschedule
  Single-reschedule p rest success s e h = elim (Option-cases (lookup p.target.id s.targets)) [
    | inl missing ↦ rw (missing, reschedule) (ended p rest s e h)
    | inr (t, found) ↦
        rw (found, reschedule)
          (elim (Bool-cases (str_eq p.target.id id)) [
            | inl same ↦
                let own = (eq_iff p.target.id id).0 same in
                let (a, b) = ended_self p rest s e own h in
                Single-start_self id p.target (next_wait p.target success)
                  (record s { running = rest }) own a b
            | inr other ↦
                Single-start_other id p.target (next_wait p.target success)
                  (record s { running = rest }) (ground (arith, eq_iff p.target.id id))
                  (ended p rest s e h)
          ])
  ]

module _ {F : Type 0} ⦃fl : FloatOps F⦄ (id : String) where
  Single-finish :
      (now : Time) (probers : Registry F) (j : String) (n : ℕ) (s : Scheduler F)
      → Single id s
      → Single id (finish now probers j n s).0
  unfolding finish
  Single-finish now probers j n s h = elim (Option-cases (take_timer j n s.running)) [
    | inl missing ↦ rw (missing, finish) h
    | inr ((p, rest), found) ↦
        rw (found, finish)
          (Single-reschedule id p rest _ s
            (subst (Conserved id s.running) found (take_timer-Conserved id j n s.running)) h)
  ]

  -- The step does not add the target while one of its runs has not ended.
  abbrev pub IsCareful : Step F → Scheduler F → Type 0
  IsCareful (added t) s = t.id ≡ id → live_in id s.running ≡ 0
  IsCareful (removed j) s = Unit
  IsCareful (fired j n) s = Unit
  IsCareful (finished now probers j n) s = Unit

  abbrev pub AllCareful : List (Step F) → Scheduler F → Type 0
  AllCareful [] s = Unit
  AllCareful (c ∷ cs) s = IsCareful c s × AllCareful cs (step c s)

  Single-step : (c : Step F) (s : Scheduler F) → IsCareful c s → Single id s → Single id (step c s)
  unfolding step
  Single-step (added t) s ok h = Single-add id t s ok h
  Single-step (removed j) s ok h = Single-remove id j s h
  Single-step (fired j n) s ok h = Single-fire id j n s h
  Single-step (finished now probers j n) s ok h = Single-finish now probers j n s h

  pub Single-step_all :
      (cs : List (Step F)) (s : Scheduler F)
      → AllCareful cs s
      → Single id s
      → Single id (step_all cs s)
  unfolding step_all
  Single-step_all [] s ok h = h
  Single-step_all (c ∷ cs) s ok h = Single-step_all cs (step c s) ok.1 (Single-step c s ok.0 h)

  pub new-Single :
      (concurrency : ℤ) (node_id : String) → Single {F = F} id (new_scheduler concurrency node_id)
  unfolding new_scheduler
  new-Single concurrency node_id = record { known = tt; one = unfold live_in keep in omega arith }

  -- A target is probed in one chain, and its removal ends it: after any steps on a new scheduler that
  -- do not add the target while one of its runs has not ended, there is at most one timer or run for
  -- it, and once it is removed no timer for it may fire.
  pub one_chain :
      (concurrency : ℤ) (node_id : String) (cs : List (Step F))
      → AllCareful cs (new_scheduler concurrency node_id)
      → (lives id (step_all cs (new_scheduler concurrency node_id)) ≤ 1)
        × (live_in id (remove id (step_all cs (new_scheduler concurrency node_id))).pending ≡ 0)
  unfolding lives
  one_chain concurrency node_id cs ok =
      let h =
        Single-step_all cs (new_scheduler concurrency node_id) ok
          (new-Single concurrency node_id) in
      (h.one, pending-remove id (step_all cs (new_scheduler concurrency node_id)) h)

module _ {F : Type 0} where
  started_lives :
      (t : Target F) (s : Scheduler F)
      → 1 ≤ live_in t.id s.running
      → 1 ≤ lives t.id (stop_old t.id s)
  unfolding lives
  started_lives t s busy = rw (running-stop_old t.id t.id s) (omega arith)

  -- Where a run of the target has not ended, `Add` makes a second chain: a timer that may fire stands
  -- beside that run.
  pub second_chain :
      (t : Target F) (s : Scheduler F) → 1 ≤ live_in t.id s.running → 2 ≤ lives t.id (add t s)
  second_chain t s busy =
      ground (arith, lives-add t.id t s, eq_iff t.id t.id, started_lives t s busy)
