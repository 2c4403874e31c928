-- ===== src/Probe/Scheduler/Alive.antt =====
-- That every target of the scheduler of internal/probe/probe.go goes on being probed.
use gi_con_mon.Probe.Scheduler.Lives.{
  Conserved, is_registered, live_in, lives, lives-stop_old, take_timer-Conserved, targets-stop_old,
  lives-start_timer,
}
use gi_con_mon.Common.{
  String, ◌≡◌, ◌≢◌, refl, arith, Bool, true, none, List, [], ◌∷◌, ℕ, ◌+◌, ◌≤◌, if◌then◌else◌,
  str_eq, eq_iff, lookup, insert, delete, keep, lookup-insert, lookup-delete, Option-cases, inl,
  inr, Bool-cases, subst, ◌∙◌, Assoc, ap, ℤ,
}
use gi_con_mon.Model.{Time, FloatOps, Target}
use gi_con_mon.Probe.Registry.{Registry}
use gi_con_mon.Probe.Scheduler.{
  Timer, Scheduler, stop_old, start_timer, add, remove, reschedule, take_timer, fire, finish,
  interval_of, new_scheduler,
}

-- A call of `Add` or `Remove`, a timer that fires, or a run that ends with its look-up and probe.
pub data Step (F : Type 0) : Type 0 where
  added : Target F → Step F
  removed : String → Step F
  fired : String → ℕ → Step F
  finished : Time → Registry F → String → ℕ → Step F

module _ {F : Type 0} where
  -- A registered target has a timer that may fire, or a run that has not ended.
  abbrev pub IsAlive : String → Scheduler F → Type 0
  IsAlive id s = is_registered id s ≡ true → 1 ≤ lives id s

  -- The maps of the scheduler hold no timers and no runs.
  lives_same :
      (id : String) (targets : Assoc (Target F)) (timers : Assoc ℕ) (s : Scheduler F)
      → lives id (record s { targets = targets; timers = timers }) ≡ lives id s
  unfolding lives
  lives_same id targets timers s = refl

  pub lives-add :
      (id : String) (t : Target F) (s : Scheduler F)
      → lives id (add t s)
        ≡ (if str_eq t.id id then lives id (stop_old t.id s) + 1 else lives id (stop_old t.id s))
  unfolding add
  lives-add id t s =
      let s' = stop_old t.id s in
      lives-start_timer id t (interval_of t) (record s' { targets = insert t.id t s'.targets })
      ∙ ap (λ n. if str_eq t.id id then n + 1 else n)
          (lives_same id (insert t.id t s'.targets) s'.timers s')

  pub add-IsAlive :
      (id : String) (t : Target F) (s : Scheduler F) → IsAlive id s → IsAlive id (add t s)
  unfolding add is_registered start_timer
  add-IsAlive id t s h = elim (Bool-cases (str_eq t.id id)) [
    | inl same ↦ λ registered. rw (lives-add, same) (omega arith)
    | inr other ↦ λ registered.
        rw (lives-add, other)
          (rw (lives-stop_old id t.id s (ground (arith, eq_iff t.id id))) (
            h (
              ground (
                arith,
                lookup-insert t.id id t (stop_old t.id s).targets,
                targets-stop_old t.id s,
              ))))
  ]

  remove-IsAlive : (id j : String) (s : Scheduler F) → IsAlive id s → IsAlive id (remove j s)
  unfolding remove is_registered
  remove-IsAlive id j s h = elim (Bool-cases (str_eq j id)) [
    | inl same ↦ λ registered. absurd (ground (arith, lookup-delete j id (stop_old j s).targets))
    | inr other ↦ λ registered.
        rw
          (lives_same id (delete j (stop_old j s).targets) (delete j (stop_old j s).timers)
            (stop_old j s))
          (rw (lives-stop_old id j s (ground (arith, eq_iff j id)))
            (h (ground (arith, lookup-delete j id (stop_old j s).targets, targets-stop_old j s))))
  ]

  fired_lives :
      (id : String) (p : Timer F) (rest : List (Timer F)) (s : Scheduler F)
      → live_in id (p ∷ rest) ≡ live_in id s.pending
      → 1 ≤ lives id s
      → 1 ≤ live_in id rest + live_in id (p ∷ s.running)
  unfolding lives live_in keep
  fired_lives id p rest s e h = ground arith

  fire-IsAlive : (id j : String) (n : ℕ) (s : Scheduler F) → IsAlive id s → IsAlive id (fire j n s)
  unfolding fire is_registered lives
  fire-IsAlive id j n s h = elim (Option-cases (take_timer j n s.pending)) [
    | inl missing ↦ rw (missing, fire) h
    | inr ((p, rest), found) ↦
        rw (found, fire, is_registered, lives)
          (λ registered.
            fired_lives id p rest s
              (subst (Conserved id s.pending) found (take_timer-Conserved id j n s.pending))
              (h registered))
  ]

  -- A run ends: its own target is gone or rescheduled.
  reschedule-IsAlive :
      (id : String) (t : Target F) (success : Bool) (s : Scheduler F)
      → (t.id ≢ id → IsAlive id s)
      → IsAlive id (reschedule t success s)
  unfolding reschedule is_registered start_timer
  reschedule-IsAlive id t success s h = elim (Bool-cases (str_eq t.id id)) [
    | inl same ↦ elim (Option-cases (lookup t.id s.targets)) [
      | inl missing ↦
          rw (missing, reschedule)
            (λ registered. absurd (
              cc (
                subst (λ j. lookup j s.targets ≡ none) ((eq_iff t.id id).0 same) missing,
                registered,
              )))
      | inr (known, found) ↦
          rw (found, reschedule) (λ registered. rw (lives-start_timer, same) (omega arith))
    ]
    | inr other ↦ elim (Option-cases (lookup t.id s.targets)) [
      | inl missing ↦ rw (missing, reschedule) (h (ground (arith, eq_iff t.id id)))
      | inr (known, found) ↦
          rw (found, reschedule)
            (λ registered.
              rw (lives-start_timer, other) (h (ground (arith, eq_iff t.id id)) registered))
    ]
  ]

  ended_lives :
      (id : String) (p : Timer F) (rest : List (Timer F)) (s : Scheduler F)
      → live_in id (p ∷ rest) ≡ live_in id s.running
      → p.target.id ≢ id
      → lives id (record s { running = rest }) ≡ lives id s
  unfolding lives live_in keep
  ended_lives id p rest s e h = ground (arith, eq_iff p.target.id id)

  ended-IsAlive :
      (id : String) (p : Timer F) (rest : List (Timer F)) (s : Scheduler F)
      → live_in id (p ∷ rest) ≡ live_in id s.running
      → IsAlive id s
      → p.target.id ≢ id
      → IsAlive id (record s { running = rest })
  unfolding is_registered
  ended-IsAlive id p rest s e h ne = λ registered. rw (ended_lives id p rest s e ne) (h registered)

module _ {F : Type 0} ⦃fl : FloatOps F⦄ where
  finish-IsAlive :
      (id j : String) (n : ℕ) (now : Time) (probers : Registry F) (s : Scheduler F)
      → IsAlive id s
      → IsAlive id (finish now probers j n s).0
  unfolding finish
  finish-IsAlive id j n now probers s h = elim (Option-cases (take_timer j n s.running)) [
    | inl missing ↦ rw (missing, finish) h
    | inr ((p, rest), found) ↦
        rw (found, finish)
          (reschedule-IsAlive id p.target _ (record s { running = rest })
            (ended-IsAlive id p rest s
              (subst (Conserved id s.running) found (take_timer-Conserved id j n s.running)) h))
  ]

  -- One step of the scheduler.
  unfoldable pub step : Step F → Scheduler F → Scheduler F
  step (added t) s = add t s
  step (removed id) s = remove id s
  step (fired id n) s = fire id n s
  step (finished now probers id n) s = (finish now probers id n s).0

  unfoldable pub step_all : List (Step F) → Scheduler F → Scheduler F
  step_all [] s = s
  step_all (c ∷ cs) s = step_all cs (step c s)

  step-IsAlive : (id : String) (c : Step F) (s : Scheduler F) → IsAlive id s → IsAlive id (step c s)
  unfolding step
  step-IsAlive id (added t) s h = add-IsAlive id t s h
  step-IsAlive id (removed j) s h = remove-IsAlive id j s h
  step-IsAlive id (fired j n) s h = fire-IsAlive id j n s h
  step-IsAlive id (finished now probers j n) s h = finish-IsAlive id j n now probers s h

  pub step_all-IsAlive :
      (id : String) (cs : List (Step F)) (s : Scheduler F)
      → IsAlive id s
      → IsAlive id (step_all cs s)
  unfolding step_all
  step_all-IsAlive id [] s h = h
  step_all-IsAlive id (c ∷ cs) s h = step_all-IsAlive id cs (step c s) (step-IsAlive id c s h)

  -- Until the scheduler is stopped, every target that is registered goes on being probed: after any
  -- calls of `Add` and `Remove`, firings of timers and ends of runs on a new scheduler, in any order
  -- and with any results, it has a timer that may fire or a run that has not ended.
  pub registered_goes_on :
      (id : String) (concurrency : ℤ) (node_id : String) (cs : List (Step F))
      → is_registered id (step_all cs (new_scheduler concurrency node_id)) ≡ true
      → 1 ≤ lives id (step_all cs (new_scheduler concurrency node_id))
  registered_goes_on id concurrency node_id cs =
      step_all-IsAlive id cs (new_scheduler concurrency node_id)
        (unfold new_scheduler is_registered lookup in λ registered. cc)
