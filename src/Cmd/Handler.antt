-- ===== src/Cmd/Handler.antt =====
-- cmd/conmon/server.go: the handler that `runServer` gives to the scheduler, which takes one result
-- through the state machine, the storage, the alert engine and the hub.
pub mod Together
pub mod Outage
use gi_con_mon.Common.{String, Bool, Option, none, some, List, [], ℕ, if◌then◌else◌}
use gi_con_mon.Model.{Time, FloatOps, Target, ProbeResult, Event}
use gi_con_mon.Storage.{Fault, Result, ok, err}
use gi_con_mon.Storage.Store.{Store}
use gi_con_mon.Fsm.Machine.{Fsm}
use gi_con_mon.Fsm.Process
use gi_con_mon.Alerter.Engine.{Engine, Reading, Formats, Dispatched}
use gi_con_mon.Alerter.Process as Alerts
use gi_con_mon.Api.Hub.{Hub, WsMessage, broadcast_event}

-- What the handler changes.
pub record Server {F : Type 0} (S : Store F) (M : Type 0) : Type 0 where
  pub fsm : Fsm F
  pub store : S.State
  pub engine : Engine F
  pub hub : Hub M

-- What one call meets: the clock and a fresh identifier of the state machine, those of the engine for each
-- rule, and what goes wrong in the look-up of the target, in the saving of the event, and in the
-- look-up of the engine.
pub record Call : Type 0 where
  pub now : Time
  pub new_id : String
  pub readings : ℕ → Reading
  pub look_fault : Fault
  pub save_fault : Fault
  pub engine_fault : Fault

-- `t, _ := store.GetTarget(...)`
abbrev pub found : {F : Type 0} → Result (Target F) → Option (Target F)
found (ok t) = some t
found (err e) = none

module _ {F M : Type 0} ⦃fl : FloatOps F⦄ (S : Store F) (formats : Formats)
    (encode : WsMessage F → M) (rfc3339 : Time → String) where
  -- The three calls for an event. The engine looks the target up behind the saving.
  unfoldable pub spread : Call → Event F → Server S M → Server S M × List (Dispatched F)
  spread call event s =
      let store = (S.save_event call.save_fault event s.store).0 in
      let get_target = λ (id : String). found (S.get_target call.engine_fault id store) in
      let (engine, sent) = Alerts.process formats get_target call.readings event s.engine in
      (
        record s {
          store = store;
          engine = engine;
          hub = broadcast_event encode rfc3339 event s.hub;
        },
        sent,
      )

  -- `if changed && event != nil`
  unfoldable pub pass_on :
      Call → Bool → Option (Event F) → Server S M → Server S M × List (Dispatched F)
  unfolding spread
  pass_on call changed none s = (s, [])
  pass_on call changed (some event) s = if changed then spread call event s else (s, [])

  -- The handler.
  unfoldable pub handle : Call → ProbeResult F → Server S M → Server S M × List (Dispatched F)
  unfolding pass_on
  handle call r s = elim (S.get_target call.look_fault r.target_id s.store) [
    | err e ↦ (s, [])
    | ok t ↦
        let out = Process.process call.now call.new_id r t s.fsm in
        pass_on call out.1 out.2 (record s { fsm = out.0 })
  ]
