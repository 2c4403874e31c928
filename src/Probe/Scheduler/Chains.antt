-- ===== src/Probe/Scheduler/Chains.antt =====
-- How many timers and runs the scheduler of internal/probe/probe.go has for one target.
use gi_con_mon.Common.{
  String, ◌≡◌, ◌≢◌, refl, arith, Bool, true, not, none, some, List, [], ◌∷◌, ℕ, ◌+◌, ◌≤◌, str_eq,
  eq_iff, lookup, insert, delete, keep, lookup-insert, Option-cases, Bool-cases, inl, inr, All,
  subst, ◌∙◌, Assoc, lookup-insert_ne, sym, lookup-delete_ne,
}
use gi_con_mon.Model.{Target, Duration}
use gi_con_mon.Probe.Scheduler.{
  Timer, Scheduler, is_timer, stop_timer, stop_old, start_timer, add, remove, interval_of,
}
use gi_con_mon.Probe.Scheduler.Lives.{live_in, is_for, live_in-stop}

module _ {F : Type 0} (id : String) where
  -- Every timer of the target is the one in the map.
  abbrev pub InMap : Assoc ℕ → List (Timer F) → Type 0
  InMap timers ps = All (λ (p : Timer F). is_for id p ≡ true → lookup id timers ≡ some p.number) ps

  pub record Single (s : Scheduler F) : Type 0 where
    pub known : InMap s.timers s.pending
    pub one : live_in id s.pending + live_in id s.running ≤ 1

  InMap-none : (timers : Assoc ℕ) (ps : List (Timer F)) → live_in id ps ≡ 0 → InMap timers ps
  unfolding live_in keep
  InMap-none timers [] h = tt
  InMap-none timers (p ∷ ps) h =
      ((λ mine. absurd (ground arith)), InMap-none timers ps (ground arith))

  -- Stopping the timer in the map stops all timers of the target.
  pub stopped-none :
      (n : ℕ) (timers : Assoc ℕ) (ps : List (Timer F))
      → lookup id timers ≡ some n
      → InMap timers ps
      → live_in id (keep (λ p. not (is_timer id n p)) ps) ≡ 0
  unfolding live_in keep
  stopped-none n timers [] e h = refl
  stopped-none n timers (p ∷ ps) e h =
      ground (arith, stopped-none n timers ps e h.1, h.0, eq_iff p.target.id id)

  pub absent-none :
      (timers : Assoc ℕ) (ps : List (Timer F))
      → lookup id timers ≡ none
      → InMap timers ps
      → live_in id ps ≡ 0
  unfolding live_in keep
  absent-none timers [] e h = refl
  absent-none timers (p ∷ ps) e h = ground (arith, absent-none timers ps e h.1, h.0)

  pub InMap-keep :
      (test : Timer F → Bool) (timers : Assoc ℕ) (ps : List (Timer F))
      → InMap timers ps
      → InMap timers (keep test ps)
  unfolding keep
  InMap-keep test timers [] h = tt
  InMap-keep test timers (p ∷ ps) h = elim (Bool-cases (test p)) [
    | inl kept ↦ rw kept (h.0, InMap-keep test timers ps h.1)
    | inr dropped ↦ rw dropped (InMap-keep test timers ps h.1)
  ]

  InMap-timers :
      (m m' : Assoc ℕ) (ps : List (Timer F)) → lookup id m' ≡ lookup id m → InMap m ps → InMap m' ps
  InMap-timers m m' [] e h = tt
  InMap-timers m m' (p ∷ ps) e h = (λ mine. e ∙ h.0 mine, InMap-timers m m' ps e h.1)

  pub Single-start_self :
      (t : Target F) (d : Duration) (s : Scheduler F)
      → t.id ≡ id
      → live_in id s.pending ≡ 0
      → live_in id s.running ≡ 0
      → Single (start_timer t d s)
  unfolding start_timer
  Single-start_self t d s same none_pending none_running = record {
    known = (
      λ mine. ground (arith, lookup-insert t.id id s.next s.timers, eq_iff t.id id),
      InMap-none (insert t.id s.next s.timers) s.pending none_pending,
    );
    one = unfold live_in keep in ground (arith, eq_iff t.id id);
  }

  pub Single-start_other :
      (t : Target F) (d : Duration) (s : Scheduler F)
      → t.id ≢ id
      → Single s
      → Single (start_timer t d s)
  unfolding start_timer
  Single-start_other t d s other h = record {
    known = (
      λ mine. absurd (ground (arith, eq_iff t.id id)),
      InMap-timers s.timers (insert t.id s.next s.timers) s.pending
          (lookup-insert_ne t.id id s.next s.timers other) h.known,
    );
    one = unfold live_in keep in ground (arith, eq_iff t.id id, h.one);
  }

  stop_old-none : (s : Scheduler F) → Single s → live_in id (stop_old id s).pending ≡ 0
  unfolding stop_old stop_timer
  stop_old-none s h = elim (Option-cases (lookup id s.timers)) [
    | inl missing ↦ rw (missing, stop_old) (absent-none s.timers s.pending missing h.known)
    | inr (n, found) ↦ rw (found, stop_old) (stopped-none n s.timers s.pending found h.known)
  ]

  pub running-stop_old : (j : String) (s : Scheduler F) → (stop_old j s).running ≡ s.running
  unfolding stop_old stop_timer
  running-stop_old j s = ground arith

  timers-stop_old : (j : String) (s : Scheduler F) → (stop_old j s).timers ≡ s.timers
  unfolding stop_old stop_timer
  timers-stop_old j s = ground arith

  Single-stop_other : (j : String) (s : Scheduler F) → j ≢ id → Single s → Single (stop_old j s)
  unfolding stop_old stop_timer
  Single-stop_other j s other h = elim (Option-cases (lookup j s.timers)) [
    | inl missing ↦ rw (missing, stop_old) h
    | inr (n, found) ↦
        rw (found, stop_old)
          (record {
            known = InMap-keep (λ p. not (is_timer j n p)) s.timers s.pending h.known;
            one = rw (live_in-stop id j n s.pending other) h.one;
          })
  ]

  -- The map of targets is not about timers.
  Single-targets :
      (targets : Assoc (Target F)) (s : Scheduler F)
      → Single s
      → Single (record s { targets = targets })
  Single-targets targets s h = record { known = h.known; one = h.one }

  idle-add :
      (t : Target F) (s : Scheduler F)
      → t.id ≡ id
      → live_in id s.running ≡ 0
      → Single s
      → Single (add t s)
  unfolding add
  idle-add t s same idle h =
      Single-start_self t (interval_of t)
        (record (stop_old t.id s) { targets = insert t.id t (stop_old t.id s).targets }) same
        (subst (λ j. live_in id (stop_old j s).pending ≡ 0) (sym same) (stop_old-none s h))
        (rw (running-stop_old t.id s) idle)

  pub Single-add :
      (t : Target F) (s : Scheduler F)
      → (t.id ≡ id → live_in id s.running ≡ 0)
      → Single s
      → Single (add t s)
  unfolding add
  Single-add t s idle h = elim (Bool-cases (str_eq t.id id)) [
    | inl same ↦ let e = (eq_iff t.id id).0 same in idle-add t s e (idle e) h
    | inr other ↦
        let ne : t.id ≢ id = ground (arith, eq_iff t.id id) in
        Single-start_other t (interval_of t)
          (record (stop_old t.id s) { targets = insert t.id t (stop_old t.id s).targets }) ne
          (Single-targets (insert t.id t (stop_old t.id s).targets) (stop_old t.id s)
            (Single-stop_other t.id s ne h))
  ]

  -- No timer of a target that was removed may fire any more.
  pub pending-remove : (s : Scheduler F) → Single s → live_in id (remove id s).pending ≡ 0
  unfolding remove
  pending-remove s h = stop_old-none s h

  pub Single-remove : (j : String) (s : Scheduler F) → Single s → Single (remove j s)
  unfolding remove
  Single-remove j s h = elim (Bool-cases (str_eq j id)) [
    | inl same ↦
        let none_pending =
          subst (λ k. live_in id (stop_old k s).pending ≡ 0) (sym ((eq_iff j id).0 same))
            (stop_old-none s h) in
        record {
          known = InMap-none (delete j (stop_old j s).timers) (stop_old j s).pending none_pending;
          one = rw (running-stop_old j s) (omega (arith, h.one, none_pending));
        }
    | inr other ↦
        let ne : j ≢ id = ground (arith, eq_iff j id) in
        let stopped = Single-stop_other j s ne h in
        record {
          known =
              InMap-timers (stop_old j s).timers (delete j (stop_old j s).timers)
                (stop_old j s).pending (lookup-delete_ne j id (stop_old j s).timers ne)
                stopped.known;
          one = stopped.one;
        }
  ]
