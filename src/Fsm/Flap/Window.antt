-- ===== src/Fsm/Flap/Window.antt =====
-- What `trim` of internal/fsm/flap.go keeps, as a prefix skip and as a filter.
use gi_con_mon.Common.{Bool, ◌≡◌, refl, List, [], ◌∷◌, ◌++◌, ◌≤◌, arith, leb, keep, All}
use gi_con_mon.Model.{Time}
use gi_con_mon.Fsm.Flap.{skip_before}

-- The instants do not go back, and none is before `lo`.
abbrev pub Ascending : Time → List Time → Type 0
Ascending lo [] = Unit
Ascending lo (t ∷ ts) = (lo ≤ t) × Ascending t ts

pub Ascending-append :
    (lo t : Time) (ts : List Time)
    → lo ≤ t
    → All (λ u. u ≤ t) ts
    → Ascending lo ts
    → Ascending lo (ts ++ t ∷ [])
Ascending-append lo t [] h a s = (h, tt)
Ascending-append lo t (u ∷ us) h a s = (s.0, Ascending-append u t us a.0 a.1 s.1)

-- An instant that lies inside the window which begins at the cutoff.
abbrev pub within : Time → Time → Bool
within cutoff t = leb cutoff t

keep-all :
    (cutoff lo : Time) (ts : List Time)
    → cutoff ≤ lo
    → Ascending lo ts
    → keep (within cutoff) ts ≡ ts
unfolding keep
keep-all cutoff lo [] h s = refl
keep-all cutoff lo (t ∷ ts) h s = ground (arith, keep-all cutoff t ts)

-- On an ascending history the prefix skip is the filter.
pub skip_before-keep :
    (cutoff lo : Time) (ts : List Time)
    → Ascending lo ts
    → skip_before cutoff ts ≡ keep (within cutoff) ts
unfolding skip_before keep
skip_before-keep cutoff lo [] s = refl
skip_before-keep cutoff lo (t ∷ ts) s =
    ground (arith, skip_before-keep cutoff t ts, keep-all cutoff t ts)

-- A later cutoff makes an earlier one superfluous.
pub skip_before-skip_before :
    (c d : Time) (ts : List Time) → c ≤ d → skip_before d (skip_before c ts) ≡ skip_before d ts
unfolding skip_before
skip_before-skip_before c d [] h = refl
skip_before-skip_before c d (t ∷ ts) h = ground (arith, skip_before-skip_before c d ts)

-- What is left of `xs ++ ys` after the skip, from what is left of `xs`.
abbrev pub resume : Time → List Time → List Time → List Time
resume cutoff [] ys = skip_before cutoff ys
resume cutoff (x ∷ xs) ys = (x ∷ xs) ++ ys

pub skip_before-append :
    (c : Time) (xs ys : List Time) → skip_before c (xs ++ ys) ≡ resume c (skip_before c xs) ys
unfolding skip_before
skip_before-append c [] ys = refl
skip_before-append c (x ∷ xs) ys = ground (arith, skip_before-append c xs ys)
