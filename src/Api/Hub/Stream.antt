-- ===== src/Api/Hub/Stream.antt =====
-- internal/api/ws.go: `handleWS`, which writes the states, and then what it receives from the hub, to one
-- page. What becomes ready in its `select` is a turn; what others do with the hub is a turn too.
pub mod Written
use gi_con_mon.Model.{TargetState}
use gi_con_mon.Common.{String, none, [], ◌∷◌, ◌++◌, some, Option, ℕ, List}
use gi_con_mon.Api.Hub.{WsMessage, Hub, subscribe, unsubscribe, receive}
use gi_con_mon.Api.Hub.Queues.{Step, step}

-- `data: %s`, with a message of the hub or with that of a ping.
pub data Frame (M : Type 0) : Type 0 where
  message_frame : M → Frame M
  ping_frame : Frame M

-- A step of others, a receive from the channel, a tick of the ticker, or the end of the request.
pub data Turn (M : Type 0) : Type 0 where
  elsewhere : Step M → Turn M
  receives : Turn M
  ticks : Turn M
  hangs_up : Turn M

module _ {M : Type 0} where
  -- What a receive writes; from an empty channel it waits on.
  abbrev pub frames_of : Option M → List (Frame M)
  frames_of none = []
  frames_of (some msg) = message_frame msg ∷ []

  -- The loop of `handleWS`, with what its deferred `Unsubscribe` leaves.
  unfoldable pub stream : ℕ → List (Turn M) → Hub M → List (Frame M) × Hub M
  stream n [] h = ([], h)
  stream n (elsewhere c ∷ turns) h = stream n turns (step c h)
  stream n (receives ∷ turns) h =
      let (h', msg) = receive n h in
      let (frames, end) = stream n turns h' in (frames_of msg ++ frames, end)
  stream n (ticks ∷ turns) h = let (frames, end) = stream n turns h in (ping_frame ∷ frames, end)
  stream n (hangs_up ∷ turns) h = ([], unsubscribe n h)

-- The first message, with the states of all targets.
unfoldable pub snapshot : {F : Type 0} → List (TargetState F) → WsMessage F
snapshot states = record {
  type = "snapshot";
  target_id = "";
  from = "";
  to = "";
  timestamp = "";
  payload = some states;
}

-- `handleWS`
unfoldable pub handle_ws :
    {F M : Type 0}
    → (WsMessage F → M)
    → List (TargetState F)
    → List (Turn M)
    → Hub M
    → List (Frame M) × Hub M
unfolding snapshot stream
handle_ws encode states turns h =
    let (h', n) = subscribe h in
    let (frames, end) = stream n turns h' in
    (message_frame (encode (snapshot states)) ∷ frames, end)
