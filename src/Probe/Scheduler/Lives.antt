-- ===== src/Probe/Scheduler/Lives.antt =====
-- The timers and runs of one target in the scheduler of internal/probe/probe.go.
use gi_con_mon.Common.{
  String, ◌≡◌, ◌≢◌, refl, arith, Bool, true, false, not, Option, none, some, List, [], ◌∷◌, ℕ, ◌+◌,
  if◌then◌else◌, str_eq, eq_iff, lookup, length, keep, Option-cases, inl, inr, Bool-cases, subst,
}
use gi_con_mon.Model.{Target, Duration}
use gi_con_mon.Probe.Scheduler.{
  Timer, Scheduler, is_timer, stop_timer, stop_old, start_timer, take_timer,
}

-- A test that a target is in the map.
abbrev pub is_some : {A : Type 0} → Option A → Bool
is_some none = false
is_some (some x) = true

module _ {F : Type 0} where
  abbrev pub is_for : String → Timer F → Bool
  is_for id p = str_eq p.target.id id

  -- The timers or runs for one target.
  unfoldable pub live_in : String → List (Timer F) → ℕ
  live_in id ps = length (keep (is_for id) ps)

  -- The timers that may fire, and the runs that have not ended, for one target.
  unfoldable pub lives : String → Scheduler F → ℕ
  unfolding live_in
  lives id s = live_in id s.pending + live_in id s.running

  unfoldable pub is_registered : String → Scheduler F → Bool
  is_registered id s = is_some (lookup id s.targets)

  pub live_in-stop :
      (id j : String) (n : ℕ) (ps : List (Timer F))
      → j ≢ id
      → live_in id (keep (λ p. not (is_timer j n p)) ps) ≡ live_in id ps
  unfolding live_in keep
  live_in-stop id j n [] h = refl
  live_in-stop id j n (p ∷ ps) h =
      ground (arith, live_in-stop id j n ps h, eq_iff p.target.id j, eq_iff p.target.id id)

  live_in-swap :
      (id : String) (p q : Timer F) (rest qs : List (Timer F))
      → live_in id (p ∷ rest) ≡ live_in id qs
      → live_in id (p ∷ q ∷ rest) ≡ live_in id (q ∷ qs)
  unfolding live_in keep
  live_in-swap id p q rest qs h = ground arith

  -- What was taken and what is left are what there was.
  abbrev pub Conserved : String → List (Timer F) → Option (Timer F × List (Timer F)) → Type 0
  Conserved id ps none = Unit
  Conserved id ps (some (p, rest)) = live_in id (p ∷ rest) ≡ live_in id ps

  pub take_timer-Conserved :
      (id j : String) (n : ℕ) (ps : List (Timer F)) → Conserved id ps (take_timer j n ps)
  unfolding take_timer
  take_timer-Conserved id j n [] = tt
  take_timer-Conserved id j n (q ∷ qs) = elim (Bool-cases (is_timer j n q)) [
    | inl mine ↦ rw mine refl
    | inr other ↦ rw other (elim (Option-cases (take_timer j n qs)) [
      | inl missing ↦ rw (missing, take_timer) tt
      | inr ((p, rest), found) ↦
          rw (found, take_timer)
            (live_in-swap id p q rest qs
              (subst (Conserved id qs) found (take_timer-Conserved id j n qs)))
    ])
  ]

  pub lives-stop_old :
      (id j : String) (s : Scheduler F) → j ≢ id → lives id (stop_old j s) ≡ lives id s
  unfolding lives stop_old stop_timer
  lives-stop_old id j s h = elim (Option-cases (lookup j s.timers)) [
    | inl missing ↦ rw (missing, stop_old)
    | inr (n, found) ↦ rw (found, stop_old, lives) (omega (arith, live_in-stop id j n s.pending h))
  ]

  pub targets-stop_old : (j : String) (s : Scheduler F) → (stop_old j s).targets ≡ s.targets
  unfolding stop_old stop_timer
  targets-stop_old j s = ground arith

  pub lives-start_timer :
      (id : String) (t : Target F) (d : Duration) (s : Scheduler F)
      → lives id (start_timer t d s) ≡ (if str_eq t.id id then lives id s + 1 else lives id s)
  unfolding lives start_timer live_in keep
  lives-start_timer id t d s = ground arith
