-- ===== src/Api/Hub/Stream/Written.antt =====
-- What the stream of a page writes, against the messages that the hub accepts for it.
use gi_con_mon.Common.{
  [], ◌∷◌, ◌≡◌, refl, ◌≢◌, All, arith, ◌++◌, some, none, ℕ, List, Option, ◌==◌, true,
}
use gi_con_mon.Api.Hub.{Hub, receive}
use gi_con_mon.Api.Hub.Queues.{Step, joins, leaves, sends, takes, step, step_all}
use gi_con_mon.Api.Hub.Delivery.{
  queue_of, taken, taken_all, accepted_all, Stays, Balanced, delivered_in_order, to_list,
}
use gi_con_mon.Api.Hub.Stream.{
  Frame, Turn, elsewhere, receives, ticks, hangs_up, message_frame, ping_frame, stream, frames_of,
}

self_eq : (n : ℕ) → (n == n) ≡ true
self_eq n = ground arith

module _ {M : Type 0} where
  -- The messages of the frames, without the pings.
  unfoldable pub messages : List (Frame M) → List M
  messages [] = []
  messages (message_frame msg ∷ frames) = msg ∷ messages frames
  messages (ping_frame ∷ frames) = messages frames

  -- The steps of the hub in the turns.
  unfoldable pub steps_of : ℕ → List (Turn M) → List (Step M)
  steps_of n [] = []
  steps_of n (elsewhere c ∷ turns) = c ∷ steps_of n turns
  steps_of n (receives ∷ turns) = takes n ∷ steps_of n turns
  steps_of n (ticks ∷ turns) = steps_of n turns
  steps_of n (hangs_up ∷ turns) = steps_of n turns

  -- Others neither take from the channel nor close it.
  abbrev pub Others : ℕ → Step M → Type 0
  Others n (leaves j) = j ≢ n
  Others n (takes j) = j ≢ n
  Others n _ = Unit

  -- The request goes on.
  abbrev pub GoesOn : ℕ → Turn M → Type 0
  GoesOn n (elsewhere c) = Others n c
  GoesOn n hangs_up = ⊥
  GoesOn n _ = Unit

  taken-Others : (n : ℕ) (c : Step M) (h : Hub M) → Others n c → taken n c h ≡ []
  unfolding taken
  taken-Others n joins h ok = refl
  taken-Others n (leaves j) h ok = refl
  taken-Others n (sends msg) h ok = refl
  taken-Others n (takes j) h ok = ground (arith, ok)

  messages-append_frames :
      (n : ℕ) (msg : Option M) (frames : List (Frame M))
      → messages (frames_of msg ++ frames) ≡ to_list n msg ++ messages frames
  unfolding messages
  messages-append_frames n none frames = refl
  messages-append_frames n (some msg) frames = refl

  messages-stream :
      (n : ℕ) (turns : List (Turn M)) (h : Hub M)
      → All (GoesOn n) turns
      → (messages (stream n turns h).0 ≡ taken_all n (steps_of n turns) h)
        × ((stream n turns h).1 ≡ step_all (steps_of n turns) h)
  unfolding messages stream steps_of taken_all step_all taken step
  messages-stream n [] h ok = (refl, refl)
  messages-stream n (elsewhere c ∷ turns) h ok =
      rw (taken-Others n c h ok.0) (messages-stream n turns (step c h) ok.1)
  messages-stream n (receives ∷ turns) h ok =
      let rest = messages-stream n turns (receive n h).0 ok.1 in
      rw
        (
          self_eq n,
          messages-append_frames n (receive n h).1 (stream n turns (receive n h).0).0,
          rest.0,
          rest.1,
        )
        (refl, refl)
  messages-stream n (ticks ∷ turns) h ok = messages-stream n turns h ok.1
  messages-stream n (hangs_up ∷ turns) h ok = absurd ok.0

  others-Stays :
      (n : ℕ) (turns : List (Turn M)) → All (GoesOn n) turns → All (Stays n) (steps_of n turns)
  unfolding steps_of
  others-Stays n [] ok = tt
  others-Stays n (elsewhere joins ∷ turns) ok = (tt, others-Stays n turns ok.1)
  others-Stays n (elsewhere (leaves j) ∷ turns) ok = (ok.0, others-Stays n turns ok.1)
  others-Stays n (elsewhere (sends msg) ∷ turns) ok = (tt, others-Stays n turns ok.1)
  others-Stays n (elsewhere (takes j) ∷ turns) ok = (tt, others-Stays n turns ok.1)
  others-Stays n (receives ∷ turns) ok = (tt, others-Stays n turns ok.1)
  others-Stays n (ticks ∷ turns) ok = others-Stays n turns ok.1
  others-Stays n (hangs_up ∷ turns) ok = absurd ok.0

  -- As long as the request goes on, the messages that the page is written, and those that still wait for
  -- it, are those that the hub accepted for it, each once and in their order.
  pub stream-Balanced :
      (n : ℕ) (turns : List (Turn M)) (h : Hub M) (q : List M)
      → All (GoesOn n) turns
      → queue_of n h ≡ some q
      → Balanced n
          (stream n turns h).1
          (messages (stream n turns h).0)
          q
          (accepted_all n (steps_of n turns) h)
  stream-Balanced n turns h q ok e =
      let written = messages-stream n turns h ok in
      rw (written.0, written.1)
        (delivered_in_order n (steps_of n turns) h q (others-Stays n turns ok) e)
