-- ===== src/Probe/Scheduler/Inner.antt =====
-- What the scheduler of internal/probe/probe.go does by itself, between the calls of its methods.
use gi_con_mon.Probe.Registry.{Registry}
use gi_con_mon.Model.{Target, FloatOps, Time}
use gi_con_mon.Common.{
  ◌∷◌, String, ℕ, List, Bool, ◌≡◌, All, ◌∙◌, Option-cases, inl, lookup, [], inr, refl,
}
use gi_con_mon.Probe.Scheduler.{Scheduler, fire, reschedule, finish, take_timer, start_timer}
use gi_con_mon.Probe.Scheduler.Alive.{Step, added, removed, fired, finished, step, step_all}

module _ {F : Type 0} where
  -- What goes on by itself: timers fire and runs end, and nobody calls `Add` or `Remove`.
  abbrev pub IsInner : Step F → Type 0
  IsInner (added t) = ⊥
  IsInner (removed j) = ⊥
  IsInner (fired j n) = Unit
  IsInner (finished now probers j n) = Unit

  targets-fire : (j : String) (n : ℕ) (s : Scheduler F) → (fire j n s).targets ≡ s.targets
  unfolding fire
  targets-fire j n s = elim (Option-cases (take_timer j n s.pending)) [
    | inl missing ↦ rw (missing, fire) refl
    | inr ((p, rest), there) ↦ rw (there, fire) refl
  ]

  targets-reschedule :
      (t : Target F) (success : Bool) (s : Scheduler F)
      → (reschedule t success s).targets ≡ s.targets
  unfolding reschedule start_timer
  targets-reschedule t success s = elim (Option-cases (lookup t.id s.targets)) [
    | inl missing ↦ rw (missing, reschedule) refl
    | inr (known, there) ↦ rw (there, reschedule) refl
  ]

module _ {F : Type 0} ⦃fl : FloatOps F⦄ where
  targets-finish :
      (now : Time) (probers : Registry F) (j : String) (n : ℕ) (s : Scheduler F)
      → (finish now probers j n s).0.targets ≡ s.targets
  unfolding finish
  targets-finish now probers j n s = elim (Option-cases (take_timer j n s.running)) [
    | inl missing ↦ rw (missing, finish) refl
    | inr ((p, rest), there) ↦
        rw (there, finish) (targets-reschedule p.target _ (record s { running = rest }))
  ]

  -- Timers that fire and runs that end register nothing and remove nothing.
  pub targets-inner :
      (cs : List (Step F)) (s : Scheduler F) → All IsInner cs → (step_all cs s).targets ≡ s.targets
  unfolding step_all step
  targets-inner [] s ok = refl
  targets-inner (added t ∷ cs) s ok = absurd ok.0
  targets-inner (removed j ∷ cs) s ok = absurd ok.0
  targets-inner (fired j n ∷ cs) s ok = targets-inner cs (fire j n s) ok.1 ∙ targets-fire j n s
  targets-inner (finished now probers j n ∷ cs) s ok =
      targets-inner cs (finish now probers j n s).0 ok.1 ∙ targets-finish now probers j n s
