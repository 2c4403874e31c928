-- ===== src/Probe/Scheduler/Interval.antt =====
-- How soon `reschedule` of internal/probe/probe.go probes again.
use gi_con_mon.Common.{
  ℕ, ◌≡◌, refl, arith, true, false, pos, ◌≤◌, ◌*◌, wrap, if◌then◌else◌, ltb, max_int64,
}
use gi_con_mon.Model.{Target}
use gi_con_mon.Probe.Scheduler.{interval_of, next_wait}

wrap_small : (m : ℕ) → m ≤ max_int64 → wrap (pos m) ≡ pos m
unfolding wrap
wrap_small m h = ground arith

module _ {F : Type 0} (t : Target F) (n : ℕ) (seconds : t.interval_sec ≡ pos n)
    (small : n ≤ 9_000_000_000) where
  interval_seconds : interval_of t ≡ pos (n * 1_000_000_000)
  unfolding interval_of
  interval_seconds = rw (seconds) (wrap_small (n * 1_000_000_000) (omega arith))

  -- A target with an interval of n seconds, at most 9 000 000 000, is probed again n seconds after a
  -- success, and n / 2 seconds after a failure, but 5 seconds after it where n is below 10.
  pub next_wait-seconds :
      (next_wait t true ≡ pos (n * 1_000_000_000))
      × (next_wait t false ≡ (if ltb n 10 then pos 5_000_000_000 else pos (n * 500_000_000)))
  unfolding next_wait
  next_wait-seconds = rw (interval_seconds) (refl, ground arith)
