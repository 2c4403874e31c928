-- ===== src/Cmd/Startup/Scheduled.antt =====
-- What is stored and scheduled when the server begins to serve.
use gi_con_mon.Cmd.Startup.{start_monitors, add_saved, add_listed, add_all, start_up, all_targets}
use gi_con_mon.Config.{MonitorSpec}
use gi_con_mon.Storage.{Result, ok, Fault, err, Page}
use gi_con_mon.Model.{FloatOps, Target, Time}
use gi_con_mon.Common.{
  [], ◌∷◌, String, ◌≡◌, Bool, ℕ, none, true, List, false, str_eq, ◌≢◌, ◌||◌, All, Option-cases,
  arith, ◌⊎◌, some, lookup, eq_iff, refl, ◌+◌, inl, lookup-insert, inr, subst, sym,
}
use gi_con_mon.Storage.Store.{Store, IsStore, stamp_target}
use gi_con_mon.Probe.Scheduler.{Scheduler, add, start_timer, stop_old, stop_timer}
use gi_con_mon.Probe.Scheduler.Lives.{is_registered}
use gi_con_mon.Cmd.Targets.{spec_to_target, id_of}

-- A registered target stays registered when one is added, which is registered itself.
pub is_registered-add :
    {F : Type 0} (t : Target F) (id : String) (s : Scheduler F)
    → is_registered id (add t s) ≡ (str_eq t.id id || is_registered id s)
unfolding is_registered add start_timer stop_old stop_timer
is_registered-add t id s = elim (Option-cases (lookup t.id s.timers)) [
  | inl fresh ↦ rw (add, stop_old, fresh) (ground (arith, lookup-insert t.id id t s.targets))
  | inr (n, known) ↦ rw (add, stop_old, known) (ground (arith, lookup-insert t.id id t s.targets))
]

abbrev pub is_ok : {A : Type 0} → Result A → Bool
is_ok (ok a) = true
is_ok (err e) = false

module _ {F : Type 0} ⦃fl : FloatOps F⦄ (S : Store F) (promises : IsStore S) where
  -- A target is stored and scheduled.
  abbrev pub IsWatched : String → S.State × Scheduler F → Type 0
  IsWatched id s = (is_ok (S.get_target none id s.0) ≡ true) × (is_registered id s.1 ≡ true)

  -- Each monitor whose saving does not fail is watched.
  abbrev pub Watched : (ℕ → Fault) → ℕ → List (MonitorSpec F) → S.State × Scheduler F → Type 0
  Watched faults i [] s = Unit
  Watched faults i (spec ∷ specs) s =
      ((faults i ≢ none) ⊎ IsWatched (id_of spec) s) × Watched faults (i + 1) specs s

  -- Each target of a listing is scheduled.
  abbrev pub Listed : Result (Page (Target F)) → Scheduler F → Type 0
  Listed (ok page) scheduler = All (λ t. is_registered t.id scheduler ≡ true) page.items
  Listed (err e) scheduler = Unit

  -- One saving with its scheduling.
  abbrev saved : Fault → Time → Target F → S.State × Scheduler F → S.State × Scheduler F
  saved fault now t s =
      let (store, error, t') = S.save_target fault now t s.0 in (store, add_saved S error t' s.1)

  saved-none :
      (now : Time) (t : Target F) (s : S.State × Scheduler F)
      → (saved none now t s).1 ≡ add (stamp_target now t) s.1
  saved-none now t s =
      rw
        (
          (promises.save_target-outcome none now t s.0).0,
          (promises.save_target-outcome none now t s.0).1,
        )
        refl

  IsWatched-saved_self :
      (now : Time) (t : Target F) (s : S.State × Scheduler F) → IsWatched t.id (saved none now t s)
  unfolding stamp_target
  IsWatched-saved_self now t s = (
    rw (promises.get_target-save_target now t t.id s.0) (ground (arith, eq_iff t.id t.id)),
    rw (saved-none now t s, is_registered-add (stamp_target now t) t.id s.1)
        (ground (arith, eq_iff t.id t.id)),
  )

  IsWatched-saved :
      (fault : Fault) (now : Time) (t : Target F) (id : String) (s : S.State × Scheduler F)
      → IsWatched id s
      → IsWatched id (saved fault now t s)
  unfolding stamp_target
  IsWatched-saved none now t id s (found, known) = (
    rw (promises.get_target-save_target now t id s.0) (ground (arith, found)),
    rw (saved-none now t s, is_registered-add (stamp_target now t) id s.1) (ground (arith, known)),
  )
  IsWatched-saved (some text) now t id s (found, known) = (
    rw (promises.failed_save text now t s.0) found,
    rw (promises.save_target-outcome (some text) now t s.0).0 known,
  )

  module _ (faults : ℕ → Fault) (times : ℕ → Time) where
    IsWatched-start_monitors :
        (i : ℕ) (specs : List (MonitorSpec F)) (id : String) (s : S.State × Scheduler F)
        → IsWatched id s
        → IsWatched id (start_monitors S faults times i specs s.0 s.1)
    unfolding start_monitors
    IsWatched-start_monitors i [] id s h = h
    IsWatched-start_monitors i (spec ∷ specs) id s h =
        IsWatched-start_monitors (i + 1) specs id
          (saved (faults i) (times i) (spec_to_target spec) s)
          (IsWatched-saved (faults i) (times i) (spec_to_target spec) id s h)

    Watched-start_monitors :
        (i : ℕ) (specs : List (MonitorSpec F)) (s : S.State × Scheduler F)
        → Watched faults i specs (start_monitors S faults times i specs s.0 s.1)
    unfolding start_monitors spec_to_target
    Watched-start_monitors i [] s = tt
    Watched-start_monitors i (spec ∷ specs) s = (
      own (faults i) refl,
      Watched-start_monitors (i + 1) specs (saved (faults i) (times i) (spec_to_target spec) s),
    )
      where
        own :
            (fault : Fault)
            → faults i ≡ fault
            → (faults i ≢ none)
              ⊎ IsWatched (id_of spec) (start_monitors S faults times i (spec ∷ specs) s.0 s.1)
        own none e = inr (
            IsWatched-start_monitors (i + 1) specs (id_of spec)
              (saved (faults i) (times i) (spec_to_target spec) s)
              (subst (λ f. IsWatched (id_of spec) (saved f (times i) (spec_to_target spec) s))
                (sym e) (IsWatched-saved_self (times i) (spec_to_target spec) s)))
        own (some text) e = inl (λ h. ground (arith, e, h))

  registered-add_all :
      (id : String) (targets : List (Target F)) (scheduler : Scheduler F)
      → is_registered id scheduler ≡ true
      → is_registered id (add_all S targets scheduler) ≡ true
  unfolding add_all
  registered-add_all id [] scheduler known = known
  registered-add_all id (t ∷ targets) scheduler known =
      registered-add_all id targets (add t scheduler)
        (rw (is_registered-add t id scheduler) (ground (arith, known)))

  All-add_all :
      (targets : List (Target F)) (scheduler : Scheduler F)
      → All (λ t. is_registered t.id (add_all S targets scheduler) ≡ true) targets
  unfolding add_all
  All-add_all [] scheduler = tt
  All-add_all (t ∷ targets) scheduler = (
    registered-add_all t.id targets (add t scheduler)
        (rw (is_registered-add t t.id scheduler) (ground (arith, eq_iff t.id t.id))),
    All-add_all targets (add t scheduler),
  )

  registered-add_listed :
      (id : String) (listing : Result (Page (Target F))) (scheduler : Scheduler F)
      → is_registered id scheduler ≡ true
      → is_registered id (add_listed S listing scheduler) ≡ true
  registered-add_listed id (ok page) scheduler known =
      registered-add_all id page.items scheduler known
  registered-add_listed id (err e) scheduler known = known

  Listed-add_listed :
      (listing : Result (Page (Target F))) (scheduler : Scheduler F)
      → Listed listing (add_listed S listing scheduler)
  Listed-add_listed (ok page) scheduler = All-add_all page.items scheduler
  Listed-add_listed (err e) scheduler = tt

  Watched-add_listed :
      (faults : ℕ → Fault) (i : ℕ) (specs : List (MonitorSpec F))
      (listing : Result (Page (Target F))) (s : S.State × Scheduler F)
      → Watched faults i specs s
      → Watched faults i specs (s.0, add_listed S listing s.1)
  Watched-add_listed faults i [] listing s h = tt
  Watched-add_listed faults i (spec ∷ specs) listing s h = (
    elim h.0 [
      | inl failed ↦ inl failed
      | inr watched ↦ inr (watched.0, registered-add_listed (id_of spec) listing s.1 watched.1)
    ],
    Watched-add_listed faults (i + 1) specs listing s h.1,
  )

  module _ (faults : ℕ → Fault) (times : ℕ → Time) (count_fault data_fault : Fault) where
    -- When the server begins to serve, every monitor of the configuration is found in the storage and
    -- scheduled, unless its own saving failed, whatever else failed; and so is every stored target on
    -- the first page of 10000.
    pub start_up-Watched :
        (specs : List (MonitorSpec F)) (store : S.State) (scheduler : Scheduler F)
        → let started = start_up S faults times count_fault data_fault specs store scheduler in
          Watched faults 0 specs started
          × Listed (S.list_targets count_fault data_fault all_targets started.0) started.1
    unfolding start_up
    start_up-Watched specs store scheduler =
        let begun : S.State × Scheduler F = start_monitors S faults times 0 specs store scheduler in
        let listing = S.list_targets count_fault data_fault all_targets begun.0 in
        (
          Watched-add_listed faults 0 specs listing begun
              (Watched-start_monitors faults times 0 specs (store, scheduler)),
          Listed-add_listed listing begun.1,
        )
