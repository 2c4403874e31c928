-- ===== src/Api/Hub/Queues.antt =====
-- The steps of the hub of internal/api/ws.go: its calls and the receives of its clients.
use gi_con_mon.Common.{List, [], ◌∷◌, ℕ}
use gi_con_mon.Api.Hub.{Hub, subscribe, unsubscribe, broadcast, receive}

-- A call of `Subscribe`, `Unsubscribe` or `Broadcast`, or a receive.
pub data Step (M : Type 0) : Type 0 where
  joins : Step M
  leaves : ℕ → Step M
  sends : M → Step M
  takes : ℕ → Step M

module _ {M : Type 0} where
  unfoldable pub step : Step M → Hub M → Hub M
  step joins h = (subscribe h).0
  step (leaves n) h = unsubscribe n h
  step (sends msg) h = broadcast msg h
  step (takes n) h = (receive n h).0

  unfoldable pub step_all : List (Step M) → Hub M → Hub M
  step_all [] h = h
  step_all (c ∷ cs) h = step_all cs (step c h)
