-- ===== src/Cmd/Handler/Outage.antt =====
-- From the failed result to the notifiers: the handler of cmd/conmon/server.go at an outage.
use gi_con_mon.Storage.{ok}
use gi_con_mon.Api.Hub.{WsMessage}
use gi_con_mon.Fsm.Derive.{down_threshold_of}
use gi_con_mon.Common.{
  String, some, none, ◌≡◌, false, ◌≤ℤ◌, increment, ap, ◌∙◌, arith, subst, sym, inl, inr, some_inj,
  refl, String, some, none,
}
use gi_con_mon.Fsm.Process.{get_state}
use gi_con_mon.Model.{TargetState, is_active, FloatOps, Time, ProbeResult, Target, Event}
use gi_con_mon.Storage.Store.{IsStore, Store}
use gi_con_mon.Fsm.Runs.Detection.{process_detects}
use gi_con_mon.Fsm.Runs.Counters.{fails-observe}
use gi_con_mon.Fsm.Process.Outcome.{process_outcome}
use gi_con_mon.Fsm.Process.Branches.{counted, previous}
use gi_con_mon.Fsm.Process.Guards.{IsLive, IsBroken}
use gi_con_mon.Fsm.Machine.{get_or_create}
use gi_con_mon.Alerter.Engine.{Formats}
use gi_con_mon.Alerter.Dispatching.{Distinct}
use gi_con_mon.Cmd.Handler.{Server, Call, handle}
use gi_con_mon.Cmd.Handler.Together.{EventOut, EventOut-handle}

module _ {F M : Type 0} ⦃fl : FloatOps F⦄ (S : Store F) (promises : IsStore S) (formats : Formats)
    (encode : WsMessage F → M) (rfc3339 : Time → String) (call : Call) (r : ProbeResult F)
    (s : Server S M) (t : Target F) (st : TargetState F) where
  get_or_create-known :
      (now : Time)
      → get_state r.target_id s.fsm ≡ some st
      → get_or_create now r.target_id s.fsm ≡ st
  unfolding get_or_create get_state
  get_or_create-known now known = rw (known, get_or_create) refl

  -- The event of the outage, with what goes out for it.
  abbrev pub OutageOut : Type 0
  OutageOut =
      (e : Event F) × (e.target_id ≡ r.target_id)
      × (e.from_status ≡ st.status)
      × IsBroken e.to_status
      × EventOut S promises formats encode rfc3339 call r s t e
          (handle S formats encode rfc3339 call r s)

  -- An outage is sent out. A failed result of a target that the storage finds, and that is UP or DEGRADED,
  -- comes outside its maintenance window and brings its failures in a row to the threshold; the rules
  -- have distinct names, and the storage does not fail. Then one event from the status of before to
  -- DOWN or FLAPPING is found in the storage, unless its identifier was taken, and is broadcast, and
  -- every rule that is due has its alert sent to those of its channels that have a notifier.
  pub outage_sent_out :
      call.save_fault ≡ none
      → call.look_fault ≡ none
      → call.engine_fault ≡ none
      → S.get_target none r.target_id s.store ≡ ok t
      → Distinct s.engine.rules
      → get_state r.target_id s.fsm ≡ some st
      → IsLive st.status
      → is_active t.maintenance r.timestamp ≡ false
      → r.success ≡ false
      → down_threshold_of s.fsm.cfg t ≤ℤ increment st.consecutive_fails
      → OutageOut
  outage_sent_out sound looks again there distinct known live open_hours failed reached =
      let old = get_or_create-known call.now known in
      let was : previous call.now r s.fsm ≡ st.status = ap (λ x. x.status) old in
      let fails : (counted call.now r s.fsm).consecutive_fails ≡ increment st.consecutive_fails =
        fails-observe r (get_or_create call.now r.target_id s.fsm) ∙ ground (arith, failed, old) in
      let (e, event, broken) =
        process_detects call.now call.new_id r t s.fsm open_hours (subst IsLive (sym was) live)
          (subst (λ n. down_threshold_of s.fsm.cfg t ≤ℤ n) (sym fails) reached) in
      elim (process_outcome call.now call.new_id r t s.fsm) [
        | inl (st', quiet, why) ↦ absurd (cc (quiet.no_event, event))
        | inr (e', st', m, outside, loud) ↦ (
          e',
          m.target_is,
          m.from_is ∙ was,
          subst (λ (x : Event F). IsBroken x.to_status) (some_inj (sym event ∙ m.event)) broken,
          EventOut-handle S promises formats encode rfc3339 call r s t sound looks again there
              distinct e' st' m,
        )
      ]
