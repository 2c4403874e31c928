-- ===== src/Cmd/Service/Recorded.antt =====
-- That the server of cmd/conmon/server.go and internal/api/server.go never alters what it has recorded.
use gi_con_mon.Api.Hub.{WsMessage}
use gi_con_mon.Alerter.Engine.{Formats}
use gi_con_mon.Model.{FloatOps, ProbeResult, Time, Event, Target}
use gi_con_mon.Common.{
  String, List, ◌∙◌, Bool-cases, ◌∷◌, Bool, none, ◌≡◌, [], Option, str_eq, some, inl, refl, eq_iff,
  false, true, inr,
}
use gi_con_mon.Cmd.Handler
use gi_con_mon.Cmd.Handler.{Call, handle, pass_on, spread}
use gi_con_mon.Api.Server.Requests
use gi_con_mon.Api.Server.Requests.{Web, Env, Request}
use gi_con_mon.Api.Server.Serve.{serve}
use gi_con_mon.Api.Server.Serve.Kept.{serve-KeepsHistory}
use gi_con_mon.Storage.{Fault, Result, ok, err}
use gi_con_mon.Storage.Store.{Store, IsStore}

-- What happens to the server: a request, or a result that the scheduler hands on.
pub data Occurrence (F Raw : Type 0) : Type 0 where
  requested : Env → Request Raw → Occurrence F Raw
  resulted : Call → ProbeResult F → Occurrence F Raw

-- The API shares the storage, the state machine and the engine with the handler.
abbrev pub api_of : {F M : Type 0} (S : Store F) → Handler.Server S M → Requests.Server S
api_of S s = record { store = s.store; fsm = s.fsm; alerter = s.engine }

module _ {F M Raw : Type 0} ⦃fl : FloatOps F⦄ (S : Store F) (formats : Formats)
    (encode : WsMessage F → M) (rfc3339 : Time → String) (web : Web F Raw) where
  unfoldable pub happen : Occurrence F Raw → Handler.Server S M → Handler.Server S M
  happen (requested env request) s =
      let after = (serve web S env request (api_of S s)).0 in
      record s { store = after.store; fsm = after.fsm; engine = after.alerter }
  happen (resulted call r) s = (handle S formats encode rfc3339 call r s).0

  unfoldable pub happen_all : List (Occurrence F Raw) → Handler.Server S M → Handler.Server S M
  happen_all [] s = s
  happen_all (o ∷ os) s = happen_all os (happen o s)

module _ {F M Raw : Type 0} ⦃fl : FloatOps F⦄ (S : Store F) (promises : IsStore S)
    (formats : Formats) (encode : WsMessage F → M) (rfc3339 : Time → String) (web : Web F Raw)
    (j : String) (e : Event F) where
  -- The storage finds this event.
  abbrev pub Finds : S.State → Type 0
  Finds store = S.get_event none j store ≡ ok e

  save_event-Finds :
      (fault : Fault) (event : Event F) (store : S.State)
      → Finds store
      → Finds (S.save_event fault event store).0
  save_event-Finds none event store found = elim (Bool-cases (str_eq event.id j)) [
    | inl same ↦
        rw (promises.get_event-save_event event j store, same, (eq_iff event.id j).0 same, found)
          refl
    | inr other ↦ rw (promises.get_event-save_event event j store, other) found
  ]
  save_event-Finds (some text) event store found = rw (promises.failed_event text event store) found

  pass_on-Finds :
      (call : Call) (b : Bool) (o : Option (Event F)) (s : Handler.Server S M)
      → Finds s.store
      → Finds (pass_on S formats encode rfc3339 call b o s).0.store
  unfolding pass_on spread
  pass_on-Finds call b none s found = found
  pass_on-Finds call false (some event) s found = found
  pass_on-Finds call true (some event) s found =
      save_event-Finds call.save_fault event s.store found

  handle-Finds :
      (call : Call) (r : ProbeResult F) (s : Handler.Server S M)
      → Finds s.store
      → Finds (handle S formats encode rfc3339 call r s).0.store
  unfolding handle
  handle-Finds call r s found = looked (S.get_target call.look_fault r.target_id s.store) refl
    where
      looked :
          (l : Result (Target F))
          → S.get_target call.look_fault r.target_id s.store ≡ l
          → Finds (handle S formats encode rfc3339 call r s).0.store
      looked (err x) is = rw (is, handle) found
      looked (ok t) is = rw (is, handle) (pass_on-Finds call _ _ (record s { fsm = _ }) found)

  happen-Finds :
      (o : Occurrence F Raw) (s : Handler.Server S M)
      → Finds s.store
      → Finds (happen S formats encode rfc3339 web o s).store
  unfolding happen
  happen-Finds (requested env request) s found =
      (serve-KeepsHistory web S promises env request (api_of S s)).0 j ∙ found
  happen-Finds (resulted call r) s found = handle-Finds call r s found

  -- What is recorded is never altered nor lost: an event that the storage finds is found with the same
  -- content after any requests of the API and any results of probes, one after another in any order and
  -- with any faults of the storage, even if another event is saved under its identifier.
  pub happen_all-Finds :
      (os : List (Occurrence F Raw)) (s : Handler.Server S M)
      → S.get_event none j s.store ≡ ok e
      → S.get_event none j (happen_all S formats encode rfc3339 web os s).store ≡ ok e
  unfolding happen_all
  happen_all-Finds [] s found = found
  happen_all-Finds (o ∷ os) s found =
      happen_all-Finds os (happen S formats encode rfc3339 web o s) (happen-Finds o s found)
