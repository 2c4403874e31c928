-- ===== src/Api/Hub.antt =====
-- internal/api/ws.go: `Hub`. A client's channel is known by a number, and its buffer is a queue. The
-- encoding of a message (`json.Marshal`) and of an instant is an argument.
pub mod Queues
pub mod Delivery
pub mod Stream
use gi_con_mon.Common.{
  String, Bool, Option, none, some, List, [], ◌∷◌, ◌++◌, map, ℕ, ◌+◌, ◌==◌, ltb, not, keep, length,
  if◌then◌else◌,
}
use gi_con_mon.Model.{Time, status_name, TargetState, Event}

-- `WSMessage`; `payload` is its `Data` and holds the states of a snapshot, and an empty text is left out.
pub record WsMessage (F : Type 0) : Type 0 where
  pub type : String
  pub target_id : String
  pub from : String
  pub to : String
  pub timestamp : String
  pub payload : Option (List (TargetState F))

-- A channel with the messages in its buffer, the oldest first.
pub record Client (M : Type 0) : Type 0 where
  pub number : ℕ
  pub queue : List M

-- `Hub`
pub record Hub (M : Type 0) : Type 0 where
  pub clients : List (Client M)
  pub next : ℕ

-- The buffer of a channel that `Subscribe` makes.
abbrev pub buffer_size : ℕ
buffer_size = 32

module _ {M : Type 0} where
  -- `NewHub`
  unfoldable pub new_hub : Hub M
  new_hub = record { clients = []; next = 0 }

  -- `Subscribe`
  unfoldable pub subscribe : Hub M → Hub M × ℕ
  subscribe h = (
    record {
      clients = h.clients ++ record { number = h.next; queue = [] } ∷ [];
      next = h.next + 1;
    },
    h.next,
  )

  -- `Unsubscribe`; each channel is closed once, by the handler that opened it.
  unfoldable pub unsubscribe : ℕ → Hub M → Hub M
  unsubscribe n h = record h { clients = keep (λ c. not (c.number == n)) h.clients }

  -- The `select` of `Broadcast`: a full channel is skipped.
  unfoldable pub offer : M → Client M → Client M
  offer msg c =
      if ltb (length c.queue) buffer_size then record c { queue = c.queue ++ msg ∷ [] } else c

  -- `Broadcast`
  unfoldable pub broadcast : M → Hub M → Hub M
  broadcast msg h = record h { clients = map (offer msg) h.clients }

  -- The receive of `handleWS`, `<-ch`, from the channel with this number.
  unfoldable pub take_from : ℕ → List (Client M) → List (Client M) × Option M
  take_from n [] = ([], none)
  take_from n (c ∷ cs) =
      let rest = take_from n cs in
      if c.number == n
      then elim c.queue [
        | [] ↦ (c ∷ cs, none)
        | msg ∷ queue ↦ (record c { queue = queue } ∷ cs, some msg)
      ]
      else (c ∷ rest.0, rest.1)

  unfoldable pub receive : ℕ → Hub M → Hub M × Option M
  unfolding take_from
  receive n h = let (cs, msg) = take_from n h.clients in (record h { clients = cs }, msg)

module _ {F M : Type 0} (encode : WsMessage F → M) (rfc3339 : Time → String) where
  -- `BroadcastEvent`
  unfoldable pub broadcast_event : Event F → Hub M → Hub M
  unfolding broadcast
  broadcast_event event h =
      broadcast
        (encode (record {
          type = "status_changed";
          target_id = event.target_id;
          from = status_name event.from_status;
          to = status_name event.to_status;
          timestamp = rfc3339 event.timestamp;
          payload = none;
        }))
        h
