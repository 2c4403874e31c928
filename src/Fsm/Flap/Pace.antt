-- ===== src/Fsm/Flap/Pace.antt =====
-- The flap tracker of internal/fsm/flap.go when a change is recorded at every result.
use gi_con_mon.Fsm.Flap.History.{history_of-count, history_of-record_change}
use gi_con_mon.Model.{Time}
use gi_con_mon.Fsm.Flap.{skip_before, FlapTracker, history_of, trim, count, record_change}
use gi_con_mon.Fsm.Flap.Window.{skip_before-skip_before}
use native.Mathlib.Nat.{mul-le-mul_right, suc-mul}
use gi_con_mon.Common.{
  zero, suc, ℕ, length-append, List, ◌≤◌, ◌*◌, ◌<◌, length, ◌+◌, ◌-◌, ◌++◌, subst, arith, ◌≡◌, ◌∷◌,
  ap, [], ◌∙◌, refl, String, pos, eq_iff,
}

-- More than j of the recorded instants are at most j times `d` before the last one, for each j below n.
abbrev pub Dense : ℕ → ℕ → Time → List Time → Type 0
Dense d n last h = (j : ℕ) → j < n → j < length (skip_before (last - j * d) h)

length-skip_before : (c : Time) (h : List Time) → length (skip_before c h) ≤ length h
unfolding skip_before
length-skip_before c [] = omega arith
length-skip_before c (t ∷ h) = ground (arith, length-skip_before c h)

-- An earlier cutoff skips no more.
length-earlier :
    (c d : Time) (h : List Time) → c ≤ d → length (skip_before d h) ≤ length (skip_before c h)
length-earlier c d h k =
    subst (λ xs. length xs ≤ length (skip_before c h)) (skip_before-skip_before c d h k)
      (length-skip_before d (skip_before c h))

-- One instant more, behind the cutoff.
length-more :
    (c t : Time) (h : List Time)
    → c ≤ t
    → length (skip_before c (h ++ t ∷ [])) ≡ length (skip_before c h) + 1
unfolding skip_before
length-more c t [] k = ground arith
length-more c t (u ∷ h) k = ground (arith, length-more c t h, length-append h (t ∷ []))

-- The history behind `Record` and `Count`.
abbrev pub next_history : ℕ → Time → List Time → List Time
next_history w t h = skip_before (t - w) (skip_before (t - w) h ++ t ∷ [])

module _ (id : String) (w : ℕ) (t : Time) (ft : FlapTracker) (width : ft.window ≡ pos w) where
  history-recorded :
      trim (record_change id t ft) (history_of (record_change id t ft) id) t
      ≡ next_history w t (history_of ft id)
  unfolding trim record_change
  history-recorded = rw (history_of-record_change id id t ft, (eq_iff id id).1 refl, width) refl

  pub length-recorded :
      (count id t (record_change id t ft)).1 ≡ length (next_history w t (history_of ft id))
  unfolding count
  length-recorded = ap length history-recorded

  pub history_of-recorded :
      history_of (count id t (record_change id t ft)).0 id ≡ next_history w t (history_of ft id)
  history_of-recorded =
      rw (history_of-count id id t (record_change id t ft), (eq_iff id id).1 refl) history-recorded

module _ (d n w last t : ℕ) (h : List Time) (fits : n * d ≤ w) (on : last ≤ t) (soon : t ≤ last + d)
    (dense : Dense d n last h) where
  length-next :
      (c : Time)
      → t - w ≤ c
      → c ≤ t
      → length (skip_before c (next_history w t h)) ≡ length (skip_before c h) + 1
  length-next c k l =
      ap length (skip_before-skip_before (t - w) c (skip_before (t - w) h ++ t ∷ []) k)
      ∙ length-more c t (skip_before (t - w) h) l
      ∙ ap (λ xs. length xs + 1) (skip_before-skip_before (t - w) c h k)

  -- The window holds what it held within its first n distances, and one more.
  earlier : (i : ℕ) (c : Time) → i < n → c ≤ last - i * d → i < length (skip_before c h)
  earlier i c k l = omega (arith, dense i k, length-earlier c (last - i * d) h l)

  pub Dense-next : Dense d n t (next_history w t h)
  Dense-next zero k = omega (arith, length-next (t - 0 * d) (omega arith) (omega arith))
  Dense-next (suc i) k = omega (
    arith,
    length-next (t - suc i * d) (omega (arith, mul-le-mul_right d k)) (omega arith),
    earlier i (t - suc i * d) (omega arith) (omega (arith, suc-mul i d)),
  )

  pub length-next_history : n < length (next_history w t h)
  length-next_history = omega (
    arith,
    length-skip_before (t - w) (next_history w t h),
    length-next (t - w) (omega arith) (omega arith),
    in_window n refl,
  )
    where
      in_window : (m : ℕ) → m ≡ n → m ≤ length (skip_before (t - w) h)
      in_window zero e = omega arith
      in_window (suc i) e = omega (
        arith,
        earlier i (t - w) (omega (arith, e)) (omega (arith, e, suc-mul i d, ap (λ k. k * d) e)),
      )
