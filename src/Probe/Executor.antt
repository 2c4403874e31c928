-- ===== src/Probe/Executor.antt =====
-- internal/probe/probe.go: `Executor.Submit`. Each call starts a goroutine that waits for a place in the
-- channel of the executor or for the end of its context; in what order they go on is open, so that the
-- executor is a relation between states.
use gi_con_mon.Common.{◌≡◌, List, [], ◌∷◌, ◌++◌, ℕ, ℤ, pos, ◌≤ℤ◌, ◌<ℤ◌, length, arith, ◌+◌, ap}
use gi_con_mon.Probe.Scheduler.{Executor, new_executor}

-- The calls of `Submit` that wait, and those whose function runs.
pub record Pool : Type 0 where
  pub executor : Executor
  pub waiting : List ℕ
  pub running : List ℕ

-- `NewExecutor`
unfoldable pub new_pool : ℤ → Pool
unfolding new_executor
new_pool concurrency = record { executor = new_executor concurrency; waiting = []; running = [] }

-- One step: a call, a place taken where there is one, a context that ends while its call waits, and a
-- function that returns.
pub data Step : Pool → Pool → Type 0 where
  submit : (p : Pool) (n : ℕ) → Step p (record p { waiting = n ∷ p.waiting })
  start :
      (p : Pool) (before after : List ℕ) (n : ℕ)
      → p.waiting ≡ before ++ n ∷ after
      → pos (length p.running) <ℤ p.executor.capacity
      → Step p (record p { waiting = before ++ after; running = n ∷ p.running })
  cancel :
      (p : Pool) (before after : List ℕ) (n : ℕ)
      → p.waiting ≡ before ++ n ∷ after
      → Step p (record p { waiting = before ++ after })
  release :
      (p : Pool) (before after : List ℕ) (n : ℕ)
      → p.running ≡ before ++ n ∷ after
      → Step p (record p { running = before ++ after })

pub data Reach (p : Pool) : Pool → Type 0 where
  here : Reach p p
  next : {q r : Pool} → Reach p q → Step q r → Reach p r

-- There is room for a function, and no more run than there is room for.
pub record IsBounded (p : Pool) : Type 0 where
  pub room : pos 1 ≤ℤ p.executor.capacity
  pub within : pos (length p.running) ≤ℤ p.executor.capacity

length-without :
    (n : ℕ) (before after : List ℕ) → length (before ++ n ∷ after) ≡ length (before ++ after) + 1
length-without n [] after = omega arith
length-without n (m ∷ before) after = omega (arith, length-without n before after)

Step-IsBounded : {p q : Pool} → Step p q → IsBounded p → IsBounded q
Step-IsBounded (submit p n) h = record { room = h.room; within = h.within }
Step-IsBounded (start p before after n waits free) h = record {
  room = h.room;
  within = omega (arith, free);
}
Step-IsBounded (cancel p before after n waits) h = record { room = h.room; within = h.within }
Step-IsBounded (release p before after n runs) h = record {
  room = h.room;
  within = omega (arith, h.within, ap length runs, length-without n before after);
}

new_pool-IsBounded : (concurrency : ℤ) → IsBounded (new_pool concurrency)
unfolding new_pool
new_pool-IsBounded concurrency = record { room = ground arith; within = ground arith }

-- Whatever is submitted, cancelled and ended, and whatever the concurrency that is asked for, no more
-- functions run at a time than the executor has room for, which is one at least.
pub Reach-IsBounded : (concurrency : ℤ) {p : Pool} → Reach (new_pool concurrency) p → IsBounded p
Reach-IsBounded concurrency here = new_pool-IsBounded concurrency
Reach-IsBounded concurrency (next r step) = Step-IsBounded step (Reach-IsBounded concurrency r)
