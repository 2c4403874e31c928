-- ===== src/Fsm/Runs/Counters.antt =====
-- The two counters of an entry of internal/fsm/fsm.go against the results that were processed.
use gi_con_mon.Fsm.Process.Branches.{get_state-remove_target}
use gi_con_mon.Common.{
  String, ◌≡◌, refl, Bool, Option, some, none, arith, ◌∙◌, Bool-cases, inl, inr, ap, ℕ, ℤ, pos, ◌+◌,
  ◌≤◌, ◌<◌, List, [], ◌∷◌, length, max_int64, increment, if◌then◌else◌, str_eq, eq_iff, lookup,
  subst, sym,
}
use gi_con_mon.Model.{Time, FloatOps, Target, ProbeResult, TargetState}
use gi_con_mon.Fsm.Machine.{Config, Fsm, get_or_create, fresh_state, observe}
use gi_con_mon.Fsm.Process.{process, set_silent, get_state, new_fsm}
use gi_con_mon.Fsm.Process.Stored.{process-StoresCounted, set_silent-stored}
use gi_con_mon.Fsm.Process.Frame.{
  Untouched, process-Untouched, set_silent-Untouched, remove_target-Untouched,
}
use gi_con_mon.Fsm.Runs.{Call, probe, silence, drop, run, run_all}

-- The results of one target in a row that failed, and that succeeded, up to the last result.
pub record Streaks : Type 0 where
  pub fails : ℕ
  pub successes : ℕ

abbrev pub no_streak : Streaks
no_streak = record { fails = 0; successes = 0 }

unfoldable pub after_result : Bool → Streaks → Streaks
after_result success k =
    if success
    then record { fails = 0; successes = k.successes + 1 }
    else record { fails = k.fails + 1; successes = 0 }

module _ {F : Type 0} where
  unfoldable pub follow : String → Call F → Streaks → Streaks
  follow id (probe now uuid r t) k = if str_eq r.target_id id then after_result r.success k else k
  follow id (silence now j quiet) k = k
  follow id (drop j) k = if str_eq j id then no_streak else k

  unfoldable pub follow_all : String → List (Call F) → Streaks → Streaks
  follow_all id [] k = k
  follow_all id (c ∷ cs) k = follow_all id cs (follow id c k)

  -- The counters of an entry; a missing entry would be made with both at 0.
  abbrev pub fails_in : Option (TargetState F) → ℤ
  fails_in none = pos 0
  fails_in (some s) = s.consecutive_fails

  abbrev pub successes_in : Option (TargetState F) → ℤ
  successes_in none = pos 0
  successes_in (some s) = s.consecutive_success

  pub record Counts (id : String) (f : Fsm F) (k : Streaks) : Type 0 where
    pub fails_count : fails_in (get_state id f) ≡ pos k.fails
    pub successes_count : successes_in (get_state id f) ≡ pos k.successes

  Counts-Untouched :
      (id : String) (f f' : Fsm F) (k : Streaks)
      → Untouched id f f'
      → Counts id f k
      → Counts id f' k
  Counts-Untouched id f f' k u h = record {
    fails_count = ap fails_in u.same_state ∙ h.fails_count;
    successes_count = ap successes_in u.same_state ∙ h.successes_count;
  }

  Counts-stored :
      (id : String) (f : Fsm F) (s : TargetState F) (k : Streaks)
      → get_state id f ≡ some s
      → s.consecutive_fails ≡ pos k.fails
      → s.consecutive_success ≡ pos k.successes
      → Counts id f k
  Counts-stored id f s k e a b = record {
    fails_count = ap fails_in e ∙ a;
    successes_count = ap successes_in e ∙ b;
  }

increment-pos : (n : ℕ) → n < max_int64 → increment (pos n) ≡ pos (n + 1)
unfolding increment
increment-pos n h = ground arith

module _ {F : Type 0} ⦃fl : FloatOps F⦄ where
  fails-get_or_create :
      (now : Time) (id : String) (f : Fsm F)
      → (get_or_create now id f).consecutive_fails ≡ fails_in (get_state id f)
  unfolding get_or_create fresh_state get_state
  fails-get_or_create now id f = ground arith

  successes-get_or_create :
      (now : Time) (id : String) (f : Fsm F)
      → (get_or_create now id f).consecutive_success ≡ successes_in (get_state id f)
  unfolding get_or_create fresh_state get_state
  successes-get_or_create now id f = ground arith

  pub fails-observe :
      (r : ProbeResult F) (s : TargetState F)
      → (observe r s).consecutive_fails
        ≡ (if r.success then pos 0 else increment s.consecutive_fails)
  unfolding observe
  fails-observe r s = ground arith

  successes-observe :
      (r : ProbeResult F) (s : TargetState F)
      → (observe r s).consecutive_success
        ≡ (if r.success then increment s.consecutive_success else pos 0)
  unfolding observe
  successes-observe r s = ground arith

  process-Counts_self :
      (f : Fsm F) (k : Streaks) (now : Time) (uuid : String) (r : ProbeResult F) (t : Target F)
      → k.fails < max_int64
      → k.successes < max_int64
      → Counts r.target_id f k
      → Counts r.target_id (process now uuid r t f).0 (after_result r.success k)
  unfolding after_result
  process-Counts_self f k now uuid r t hf hs c =
      let old = get_or_create now r.target_id f in
      let (s, stored, same) = process-StoresCounted now uuid r t f in
      Counts-stored r.target_id (process now uuid r t f).0 s _ stored
        (same.fails_is
          ∙ fails-observe r old
          ∙ ground
              (arith, fails-get_or_create now r.target_id f, c.fails_count, increment-pos k.fails))
        (same.success_is
          ∙ successes-observe r old
          ∙ ground (
            arith,
            successes-get_or_create now r.target_id f,
            c.successes_count,
            increment-pos k.successes,
          ))

  run-Counts :
      (id : String) (c : Call F) (f : Fsm F) (k : Streaks)
      → k.fails < max_int64
      → k.successes < max_int64
      → Counts id f k
      → Counts id (run c f) (follow id c k)
  unfolding run follow
  run-Counts id (probe now uuid r t) f k hf hs c = elim (Bool-cases (str_eq r.target_id id)) [
    | inl same ↦ rw same (
        subst (λ j. Counts j f k → Counts j (process now uuid r t f).0 (after_result r.success k))
          ((eq_iff r.target_id id).0 same) (process-Counts_self f k now uuid r t hf hs) c)
    | inr other ↦ rw other (
        Counts-Untouched id f _ k
          (process-Untouched id f now uuid r t (ground (arith, eq_iff r.target_id id))) c)
  ]
  run-Counts id (silence now j quiet) f k hf hs c = elim (Bool-cases (str_eq j id)) [
    | inl same ↦
        subst (λ j. Counts id (set_silent now j quiet f) k) (sym ((eq_iff j id).0 same))
          (silenced now quiet f k c)
    | inr other ↦
        Counts-Untouched id f _ k
          (set_silent-Untouched id f now j quiet (ground (arith, eq_iff j id))) c
  ]
    where
      silenced :
          (now : Time) (quiet : Bool) (f : Fsm F) (k : Streaks)
          → Counts id f k
          → Counts id (set_silent now id quiet f) k
      silenced now quiet f k c =
          let (s, stored, same) = set_silent-stored now id quiet f in
          Counts-stored id (set_silent now id quiet f) s k stored
            (same.fails_is ∙ fails-get_or_create now id f ∙ c.fails_count)
            (same.success_is ∙ successes-get_or_create now id f ∙ c.successes_count)
  run-Counts id (drop j) f k hf hs c = elim (Bool-cases (str_eq j id)) [
    | inl same ↦ rw same (record {
      fails_count = ap fails_in (get_state-remove_target id j f same);
      successes_count = ap successes_in (get_state-remove_target id j f same);
    })
    | inr other ↦
        rw other (
          Counts-Untouched id f _ k (remove_target-Untouched id f j (ground (arith, eq_iff j id)))
            c)
  ]

  follow-le :
      (id : String) (c : Call F) (k : Streaks) (m : ℕ)
      → k.fails ≤ m
      → k.successes ≤ m
      → ((follow id c k).fails ≤ m + 1) × ((follow id c k).successes ≤ m + 1)
  unfolding follow after_result
  follow-le id (probe now uuid r t) k m a b = ground arith
  follow-le id (silence now j quiet) k m a b = ground arith
  follow-le id (drop j) k m a b = ground arith

  run_all-Counts :
      (id : String) (cs : List (Call F)) (f : Fsm F) (k : Streaks) (m : ℕ)
      → k.fails ≤ m
      → k.successes ≤ m
      → m + length cs ≤ max_int64
      → Counts id f k
      → Counts id (run_all cs f) (follow_all id cs k)
  unfolding run_all follow_all
  run_all-Counts id [] f k m a b h c = c
  run_all-Counts id (call ∷ cs) f k m a b h c =
      let (a', b') = follow-le id call k m a b in
      run_all-Counts id cs (run call f) (follow id call k) (m + 1) a' b' (omega arith)
        (run-Counts id call f k (omega arith) (omega arith) c)

  -- After any calls on a new machine, the counters of a target's entry are the numbers of its results
  -- in a row that failed and that succeeded, since it was last removed: calls for other targets,
  -- silencing and maintenance leave them alone. The number of calls is below the range of `int`.
  pub counters_count_streaks :
      (id : String) (cfg : Config F) (cs : List (Call F))
      → length cs ≤ max_int64
      → Counts id (run_all cs (new_fsm cfg)) (follow_all id cs no_streak)
  counters_count_streaks id cfg cs h =
      run_all-Counts id cs (new_fsm cfg) no_streak 0 (omega arith) (omega arith) (omega arith)
        (unfold new_fsm get_state lookup in record { fails_count = refl; successes_count = refl })
