-- ===== src/Api/Server/Reading/Summary.antt =====
-- The summary of the global status.
use gi_con_mon.Fsm.Process.{all_states}
use gi_con_mon.Storage.Store.{Store}
use gi_con_mon.Api.Server.Requests.{summary, Web, Body, Env, Server}
use gi_con_mon.Api.Server.Reading.{count_status, summarize, handle_global_status}
use gi_con_mon.Model.{Status, FloatOps, status_eq_iff, status_eq-false, TargetState, status_eq}
use gi_con_mon.Common.{
  if◌then◌else◌, ◌≡◌, keep, List, ◌+◌, arith, [], refl, false, Bool-cases, Bool, inl, true, inr,
  ◌≢◌, ℕ, length, ◌∷◌,
}

-- The number of all targets that a summary counts.
unfoldable pub counted : List (Status × ℕ) → ℕ
counted [] = 0
counted ((st, n) ∷ m) = n + counted m

-- The number of a status in a summary.
unfoldable pub count_of : Status → List (Status × ℕ) → ℕ
count_of st [] = 0
count_of st ((key, n) ∷ m) = if status_eq key st then n else count_of st m

-- The states with a status.
unfoldable pub having : {F : Type 0} → Status → List (TargetState F) → ℕ
unfolding keep
having st states = length (keep (λ s. status_eq s.status st) states)

counted-count_status :
    (st : Status) (m : List (Status × ℕ)) → counted (count_status st m) ≡ counted m + 1
unfolding counted count_status
counted-count_status st [] = omega arith
counted-count_status st ((key, n) ∷ m) = ground (arith, counted-count_status st m)

counted-summarize :
    {F : Type 0} (states : List (TargetState F)) (m : List (Status × ℕ))
    → counted (summarize states m) ≡ counted m + length states
unfolding summarize
counted-summarize [] m = omega arith
counted-summarize (s ∷ states) m =
    omega
      (arith, counted-summarize states (count_status s.status m), counted-count_status s.status m)

counted_here :
    (b : Bool) (n rest : ℕ)
    → (if b then n + 1 else rest)
      ≡ (if b then (if b then n else rest) + 1 else (if b then n else rest))
counted_here true n rest = refl
counted_here false n rest = refl

differs :
    (first key st : Status) → status_eq first key ≡ false → status_eq first st ≡ true → key ≢ st
differs first key st differ here e = ground (arith, status_eq_iff first key, status_eq_iff first st)

count_of-count_status :
    (st key : Status) (m : List (Status × ℕ))
    → count_of st (count_status key m)
      ≡ (if status_eq key st then count_of st m + 1 else count_of st m)
unfolding count_of count_status
count_of-count_status st key [] = ground arith
count_of-count_status st key ((first, n) ∷ m) = elim (Bool-cases (status_eq first key)) [
  | inl same ↦
      rw (same, (status_eq_iff first key).0 same)
        (counted_here (status_eq key st) n (count_of st m))
  | inr differ ↦ elim (Bool-cases (status_eq first st)) [
    | inl here ↦
        rw (differ, here, status_eq-false key st (λ e. differs first key st differ here e)) refl
    | inr elsewhere ↦ rw (differ, elsewhere) (count_of-count_status st key m)
  ]
]

count_of-summarize :
    {F : Type 0} (st : Status) (states : List (TargetState F)) (m : List (Status × ℕ))
    → count_of st (summarize states m) ≡ count_of st m + having st states
unfolding summarize having keep
count_of-summarize st [] m = omega arith
count_of-summarize st (s ∷ states) m = ground (
  arith,
  count_of-summarize st states (count_status s.status m),
  count_of-count_status st s.status m,
)

-- What an answer must say of the states of the machine.
abbrev pub Summarizes : {F : Type 0} → Status → List (TargetState F) → Body F → Type 0
Summarizes st states (summary total counts ts) =
    (total ≡ length states) × (counted counts ≡ total) × (count_of st counts ≡ having st states)
Summarizes st states _ = ⊥

module _ {F Raw : Type 0} ⦃fl : FloatOps F⦄ (web : Web F Raw) (S : Store F) where
  -- The global status gives the number of all states of the machine; its counts add up to that
  -- number, and the count of each status is the number of the states that have it.
  pub global_status-Summarizes :
      (env : Env) (st : Status) (s : Server S)
      → Summarizes st (all_states s.fsm) (handle_global_status web S env s).body
  unfolding handle_global_status counted count_of
  global_status-Summarizes env st s = (
    refl,
    omega (arith, counted-summarize (all_states s.fsm) []),
    omega (arith, count_of-summarize st (all_states s.fsm) []),
  )
