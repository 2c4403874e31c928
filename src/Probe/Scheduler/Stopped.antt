-- ===== src/Probe/Scheduler/Stopped.antt =====
-- That `Stop` of internal/probe/probe.go ends the probing of a target.
use gi_con_mon.Probe.Scheduler.Inner.{IsInner}
use gi_con_mon.Common.{
  String, ◌≡◌, ◌≢◌, refl, arith, if◌then◌else◌, ◌≤◌, not, List, [], ◌∷◌, ℕ, ◌+◌, str_eq, eq_iff,
  lookup, keep, Option-cases, Bool-cases, inl, inr, subst, Assoc, ℤ, sym, Bool, All, ◌≤◌,
}
use gi_con_mon.Model.{Time, FloatOps}
use gi_con_mon.Probe.Registry.{Registry}
use gi_con_mon.Probe.Scheduler.{
  Timer, Scheduler, is_timer, stop_timer, stop_all, stop, reschedule, next_wait, take_timer, fire,
  finish, new_scheduler,
}
use gi_con_mon.Probe.Scheduler.Lives.{
  lives, live_in, Conserved, take_timer-Conserved, lives-start_timer,
}
use gi_con_mon.Probe.Scheduler.Alive.{Step, added, removed, fired, finished, step, step_all}
use gi_con_mon.Probe.Scheduler.Chains.{InMap, InMap-keep, Single, stopped-none, absent-none}
use gi_con_mon.Probe.Scheduler.Once.{AllCareful, Single-step_all, new-Single}

module _ {F : Type 0} (id : String) where
  live_in-keep_zero :
      (test : Timer F → Bool) (ps : List (Timer F))
      → live_in id ps ≡ 0
      → live_in id (keep test ps) ≡ 0
  unfolding live_in keep
  live_in-keep_zero test [] h = refl
  live_in-keep_zero test (p ∷ ps) h = ground (arith, live_in-keep_zero test ps)

  stop_all_zero :
      (m : Assoc ℕ) (s : Scheduler F)
      → live_in id s.pending ≡ 0
      → live_in id (stop_all m s).pending ≡ 0
  unfolding stop_all stop_timer
  stop_all_zero [] s h = h
  stop_all_zero ((j, n) ∷ m) s h =
      stop_all_zero m (stop_timer j n s) (live_in-keep_zero (λ p. not (is_timer j n p)) s.pending h)

  InMap-tail :
      (j : String) (n : ℕ) (m : Assoc ℕ) (ps : List (Timer F))
      → j ≢ id
      → InMap id ((j, n) ∷ m) ps
      → InMap id m ps
  unfolding lookup
  InMap-tail j n m [] ne h = tt
  InMap-tail j n m (p ∷ ps) ne h =
      (λ mine. ground (arith, h.0 mine, eq_iff j id), InMap-tail j n m ps ne h.1)

  -- The loop of `Stop` stops every timer of the target, where they are all in the map.
  stop_all-none :
      (m : Assoc ℕ) (s : Scheduler F) → InMap id m s.pending → live_in id (stop_all m s).pending ≡ 0
  unfolding stop_all stop_timer lookup
  stop_all-none [] s h = absent-none id [] s.pending refl h
  stop_all-none ((j, n) ∷ m) s h = elim (Bool-cases (str_eq j id)) [
    | inl same ↦
        let e = (eq_iff j id).0 same in
        stop_all_zero m (stop_timer j n s) (
          subst (λ k. live_in id (keep (λ p. not (is_timer k n p)) s.pending) ≡ 0) (sym e)
            (stopped-none id n ((j, n) ∷ m) s.pending (rw (lookup, same) refl) h))
    | inr other ↦ stop_all-none m (stop_timer j n s) (
        InMap-keep id (λ p. not (is_timer j n p)) m s.pending
          (InMap-tail j n m s.pending (ground (arith, eq_iff j id)) h))
  ]

  running-stop_all : (m : Assoc ℕ) (s : Scheduler F) → (stop_all m s).running ≡ s.running
  unfolding stop_all stop_timer
  running-stop_all [] s = refl
  running-stop_all ((j, n) ∷ m) s = running-stop_all m (stop_timer j n s)

  fired_lives :
      (p : Timer F) (rest : List (Timer F)) (s : Scheduler F)
      → live_in id (p ∷ rest) ≡ live_in id s.pending
      → live_in id rest + live_in id (p ∷ s.running) ≡ lives id s
  unfolding lives live_in keep
  fired_lives p rest s e = ground arith

  lives-fire : (j : String) (n : ℕ) (s : Scheduler F) → lives id (fire j n s) ≡ lives id s
  unfolding fire lives
  lives-fire j n s = elim (Option-cases (take_timer j n s.pending)) [
    | inl missing ↦ rw (missing, fire) refl
    | inr ((p, rest), found) ↦
        rw (found, fire)
          (fired_lives p rest s
            (subst (Conserved id s.pending) found (take_timer-Conserved id j n s.pending)))
  ]

  -- A run of the target that ends leaves room for the timer that it may start.
  ended_lives :
      (p : Timer F) (rest : List (Timer F)) (s : Scheduler F)
      → live_in id (p ∷ rest) ≡ live_in id s.running
      → (if str_eq p.target.id id then 1 else 0) + lives id (record s { running = rest })
        ≡ lives id s
  unfolding lives live_in keep
  ended_lives p rest s e = ground arith

  lives-reschedule :
      (p : Timer F) (success : Bool) (s : Scheduler F)
      → lives id (reschedule p.target success s)
        ≤ (if str_eq p.target.id id then 1 else 0) + lives id s
  unfolding reschedule
  lives-reschedule p success s = elim (Option-cases (lookup p.target.id s.targets)) [
    | inl missing ↦ rw (missing, reschedule) (omega arith)
    | inr (known, found) ↦
        rw (found, reschedule)
          (ground (arith, lives-start_timer id p.target (next_wait p.target success) s))
  ]

module _ {F : Type 0} ⦃fl : FloatOps F⦄ (id : String) where
  lives-finish :
      (now : Time) (probers : Registry F) (j : String) (n : ℕ) (s : Scheduler F)
      → lives id (finish now probers j n s).0 ≤ lives id s
  unfolding finish
  lives-finish now probers j n s = elim (Option-cases (take_timer j n s.running)) [
    | inl missing ↦ rw (missing, finish) (omega arith)
    | inr ((p, rest), found) ↦
        rw (found, finish)
          (omega (
            arith,
            lives-reschedule id p _ (record s { running = rest }),
            ended_lives id p rest s
                (subst (Conserved id s.running) found (take_timer-Conserved id j n s.running)),
          ))
  ]

  lives-inner :
      (cs : List (Step F)) (s : Scheduler F)
      → All IsInner cs
      → lives id (step_all cs s) ≤ lives id s
  unfolding step_all step
  lives-inner [] s ok = omega arith
  lives-inner (added t ∷ cs) s ok = absurd ok.0
  lives-inner (removed j ∷ cs) s ok = absurd ok.0
  lives-inner (fired j n ∷ cs) s ok =
      omega (arith, lives-inner cs (fire j n s) ok.1, lives-fire id j n s)
  lives-inner (finished now probers j n ∷ cs) s ok =
      omega
        (arith, lives-inner cs (finish now probers j n s).0 ok.1, lives-finish now probers j n s)

  stopped_pending : (s : Scheduler F) → Single id s → live_in id (stop s).pending ≡ 0
  unfolding stop
  stopped_pending s h = stop_all-none id s.timers s h.known

  stopped_lives : (s : Scheduler F) → Single id s → lives id (stop s) ≡ live_in id s.running
  unfolding stop lives
  stopped_lives s h =
      rw (stop_all-none id s.timers s h.known, running-stop_all id s.timers s) (omega arith)

  -- `Stop` ends the probing of a target: after any steps on a new scheduler that do not add the target
  -- while one of its runs has not ended, no timer for it may fire once `Stop` has returned; and
  -- whatever timers fire and runs end from then on, until the next call of `Add` or `Remove`, the
  -- target has no more timers and runs than it had runs under way: none at all, if none was.
  pub stop_ends :
      (concurrency : ℤ) (node_id : String) (cs ds : List (Step F))
      → AllCareful id cs (new_scheduler concurrency node_id)
      → All IsInner ds
      → let s = step_all cs (new_scheduler concurrency node_id) in
        (live_in id (stop s).pending ≡ 0) × (lives id (step_all ds (stop s)) ≤ live_in id s.running)
  stop_ends concurrency node_id cs ds careful inner =
      let h =
        Single-step_all id cs (new_scheduler concurrency node_id) careful
          (new-Single id concurrency node_id) in
      let s = step_all cs (new_scheduler concurrency node_id) in
      (stopped_pending s h, omega (arith, lives-inner ds (stop s) inner, stopped_lives s h))
