-- ===== src/Api/Hub/Delivery.antt =====
-- The order in which a client of the hub of internal/api/ws.go receives messages.
use mathlib.Core.List.{append_assoc, append-nil}
use gi_con_mon.Common.{
  ◌≡◌, ◌≢◌, refl, sym, ap, ◌∙◌, arith, not, Option, none, some, List, [], ◌∷◌, ◌++◌, map, ℕ, ◌==◌,
  ltb, keep, length, if◌then◌else◌, All, Bool-cases, inl, inr, subst,
}
use gi_con_mon.Api.Hub.{
  Client, Hub, buffer_size, subscribe, unsubscribe, offer, broadcast, take_from, receive,
}
use gi_con_mon.Api.Hub.Queues.{Step, joins, leaves, sends, takes, step, step_all}

module _ {M : Type 0} (n : ℕ) where
  -- The buffer of the client with the number.
  unfoldable pub queue_in : List (Client M) → Option (List M)
  queue_in [] = none
  queue_in (c ∷ cs) = if c.number == n then some c.queue else queue_in cs

  unfoldable pub queue_of : Hub M → Option (List M)
  queue_of h = queue_in h.clients

  abbrev pub offered : M → Option (List M) → Option (List M)
  offered msg none = none
  offered msg (some q) = some (if ltb (length q) buffer_size then q ++ msg ∷ [] else q)

  abbrev pub without_first : Option (List M) → Option (List M)
  without_first (some (msg ∷ q)) = some q
  without_first o = o

  abbrev pub first_of : Option (List M) → Option M
  first_of (some (msg ∷ q)) = some msg
  first_of o = none

  queue_in-append :
      (cs : List (Client M)) (c : Client M) (q : List M)
      → queue_in cs ≡ some q
      → queue_in (cs ++ c ∷ []) ≡ some q
  unfolding queue_in
  queue_in-append [] c q h = ground arith
  queue_in-append (d ∷ cs) c q h = ground (arith, queue_in-append cs c q)

  queue_in-keep :
      (j : ℕ) (cs : List (Client M))
      → j ≢ n
      → queue_in (keep (λ c. not (c.number == j)) cs) ≡ queue_in cs
  unfolding queue_in keep
  queue_in-keep j [] h = refl
  queue_in-keep j (c ∷ cs) h = ground (arith, queue_in-keep j cs h)

  queue_in-broadcast :
      (msg : M) (cs : List (Client M)) → queue_in (map (offer msg) cs) ≡ offered msg (queue_in cs)
  unfolding queue_in offer
  queue_in-broadcast msg [] = refl
  queue_in-broadcast msg (c ∷ cs) = ground (arith, queue_in-broadcast msg cs)

  queue_in-take_other :
      (j : ℕ) (cs : List (Client M)) → j ≢ n → queue_in (take_from j cs).0 ≡ queue_in cs
  unfolding queue_in take_from
  queue_in-take_other j [] h = refl
  queue_in-take_other j (c ∷ cs) h = ground (arith, queue_in-take_other j cs h)

  queue_in-take_self :
      (cs : List (Client M))
      → (queue_in (take_from n cs).0 ≡ without_first (queue_in cs))
        × ((take_from n cs).1 ≡ first_of (queue_in cs))
  unfolding queue_in take_from
  queue_in-take_self [] = (refl, refl)
  queue_in-take_self (c ∷ cs) = ground (arith, queue_in-take_self cs)

  abbrev pub to_list : Option M → List M
  to_list none = []
  to_list (some msg) = msg ∷ []

  -- The messages that a step takes out of the client's buffer.
  unfoldable pub taken : Step M → Hub M → List M
  taken joins h = []
  taken (leaves j) h = []
  taken (sends msg) h = []
  taken (takes j) h = if j == n then to_list (receive n h).1 else []

  abbrev room_for : M → Option (List M) → List M
  room_for msg none = []
  room_for msg (some q) = if ltb (length q) buffer_size then msg ∷ [] else []

  -- The messages of a step that find room in the client's buffer.
  unfoldable pub accepted : Step M → Hub M → List M
  accepted joins h = []
  accepted (leaves j) h = []
  accepted (sends msg) h = room_for msg (queue_of h)
  accepted (takes j) h = []

  unfoldable pub taken_all : List (Step M) → Hub M → List M
  taken_all [] h = []
  taken_all (c ∷ cs) h = taken c h ++ taken_all cs (step c h)

  unfoldable pub accepted_all : List (Step M) → Hub M → List M
  accepted_all [] h = []
  accepted_all (c ∷ cs) h = accepted c h ++ accepted_all cs (step c h)

  -- The client does not unsubscribe.
  abbrev pub Stays : Step M → Type 0
  Stays (leaves j) = j ≢ n
  Stays _ = Unit

  -- The messages `seen` and then those in the buffer are `q` and then `came`.
  abbrev pub Balanced : Hub M → List M → List M → List M → Type 0
  Balanced h seen q came = (rest : List M) × (queue_of h ≡ some rest) × (seen ++ rest ≡ q ++ came)

  sent-Balanced :
      (msg : M) (h : Hub M) (q : List M)
      → queue_of h ≡ some q
      → Balanced (broadcast msg h) [] q (room_for msg (queue_of h))
  unfolding broadcast queue_of
  sent-Balanced msg h q e = (
    (if ltb (length q) buffer_size then q ++ msg ∷ [] else q),
    queue_in-broadcast msg h.clients ∙ ap (offered msg) e,
    subst (λ o. (if ltb (length q) buffer_size then q ++ msg ∷ [] else q) ≡ q ++ room_for msg o)
        (sym e)
        (elim (Bool-cases (ltb (length q) buffer_size)) [
          | inl room ↦ rw room refl
          | inr full ↦ rw full (sym (append-nil q))
        ]),
  )

  took-Balanced :
      (h : Hub M) (q : List M)
      → queue_of h ≡ some q
      → Balanced (receive n h).0 (to_list (receive n h).1) q []
  unfolding receive queue_of
  took-Balanced h [] e =
      let (left, got) = queue_in-take_self h.clients in
      ([], left ∙ ap without_first e, ap (λ o. to_list o ++ []) (got ∙ ap first_of e))
  took-Balanced h (msg ∷ q) e =
      let (left, got) = queue_in-take_self h.clients in
      (
        q,
        left ∙ ap without_first e,
        ap (λ o. to_list o ++ q) (got ∙ ap first_of e) ∙ sym (append-nil (msg ∷ q)),
      )

  step-Balanced :
      (c : Step M) (h : Hub M) (q : List M)
      → Stays c
      → queue_of h ≡ some q
      → Balanced (step c h) (taken c h) q (accepted c h)
  unfolding step taken accepted subscribe unsubscribe queue_of
  step-Balanced joins h q ok e = (q, queue_in-append h.clients _ q e, sym (append-nil q))
  step-Balanced (leaves j) h q ok e = (q, queue_in-keep j h.clients ok ∙ e, sym (append-nil q))
  step-Balanced (sends msg) h q ok e = sent-Balanced msg h q e
  step-Balanced (takes j) h q ok e = elim (Bool-cases (j == n)) [
    | inl mine ↦
        let same : j ≡ n = ground arith in
        rw mine (
          subst (λ k. Balanced (receive k h).0 (to_list (receive n h).1) q []) (sym same)
            (took-Balanced h q e))
    | inr other ↦ rw other (
      q,
      unfold receive in queue_in-take_other j h.clients (ground arith) ∙ e,
      sym (append-nil q),
    )
  ]

  -- A client that stays receives the messages in the order in which they were sent, each once: what it
  -- takes out of its buffer during any steps, and then what is left in it, are what was in the buffer
  -- before, and then the messages that were sent while the buffer had room.
  pub delivered_in_order :
      (cs : List (Step M)) (h : Hub M) (q : List M)
      → All Stays cs
      → queue_of h ≡ some q
      → Balanced (step_all cs h) (taken_all cs h) q (accepted_all cs h)
  unfolding step_all taken_all accepted_all
  delivered_in_order [] h q ok e = (q, e, sym (append-nil q))
  delivered_in_order (c ∷ cs) h q ok e =
      let (mid, at, first) = step-Balanced c h q ok.0 e in
      let (end, at', later) = delivered_in_order cs (step c h) mid ok.1 at in
      (
        end,
        at',
        append_assoc (taken c h) (taken_all cs (step c h)) end
            ∙ ap (taken c h ++◌) later
            ∙ sym (append_assoc (taken c h) mid (accepted_all cs (step c h)))
            ∙ ap (◌++ accepted_all cs (step c h)) first
            ∙ append_assoc q (accepted c h) (accepted_all cs (step c h)),
      )
