-- ===== src/Cmd/Handler/Together.antt =====
-- That the handler of cmd/conmon/server.go saves, alerts and broadcasts the same events.
use gi_con_mon.Storage.{ok}
use gi_con_mon.Storage.Store.{IsStore, saved_event, Store}
use gi_con_mon.Fsm.Machine.{Fsm}
use gi_con_mon.Common.{
  String, ◌≡◌, ◌≢◌, refl, true, Option, none, some, List, [], map, ◌⊎◌, inl, inr, subst, sym, ◌∙◌,
  Bool, if◌then◌else◌, str_eq, ap,
}
use gi_con_mon.Model.{
  Time, FloatOps, Target, ProbeResult, Event, is_active, maintenance, TargetState,
}
use gi_con_mon.Fsm.Process.{get_state, process}
use gi_con_mon.Fsm.Process.Branches.{previous}
use gi_con_mon.Fsm.Process.Outcome.{process_outcome, Moved}
use gi_con_mon.Alerter.Engine.{Formats, Dispatched}
use gi_con_mon.Alerter.Dispatching.{Distinct, notice, expected_notices, alerts-process}
use gi_con_mon.Api.Hub.{WsMessage, broadcast_event}
use gi_con_mon.Cmd.Handler.{Server, Call, handle, pass_on, spread, found}

module _ {F M : Type 0} ⦃fl : FloatOps F⦄ (S : Store F) (promises : IsStore S) (formats : Formats)
    (encode : WsMessage F → M) (rfc3339 : Time → String) (call : Call) (r : ProbeResult F)
    (s : Server S M) where
  -- Nothing is saved, sent or broadcast.
  abbrev pub NothingOut : Server S M × List (Dispatched F) → Type 0
  NothingOut (s', sent) =
      (s'.store ≡ s.store) × (s'.engine ≡ s.engine) × (s'.hub ≡ s.hub) × (sent ≡ [])

  -- The event is in the storage, where the first one with its identifier counts, beside all that was there;
  -- it is broadcast, and the alerts of the rules that are due are sent to the channels that are reachable.
  abbrev pub EventOut : Target F → Event F → Server S M × List (Dispatched F) → Type 0
  EventOut t e (s', sent) =
      ((j : String)
        → S.get_event none j s'.store ≡ (
            if str_eq e.id j
            then ok (saved_event (S.get_event none e.id s.store) e)
            else S.get_event none j s.store))
      × ((j : String) → S.get_target none j s'.store ≡ S.get_target none j s.store)
      × (s'.hub ≡ broadcast_event encode rfc3339 e s.hub)
      × (map notice sent ≡ expected_notices formats call.readings 0 s.engine.rules e t s.engine)

  -- The status stays, or a window is active and it is MAINTENANCE; nothing goes out.
  abbrev pub Silently : Target F → Server S M × List (Dispatched F) → Type 0
  Silently t out =
      (st : TargetState F) × (get_state r.target_id out.0.fsm ≡ some st)
      × ((st.status ≡ previous call.now r s.fsm)
          ⊎ ((is_active t.maintenance r.timestamp ≡ true) × (st.status ≡ maintenance)))
      × NothingOut out

  -- The status changes, and the event of that change goes out.
  abbrev pub Openly : Target F → Server S M × List (Dispatched F) → Type 0
  Openly t out =
      (e : Event F) × (st : TargetState F) × (get_state r.target_id out.0.fsm ≡ some st)
      × (e.from_status ≡ previous call.now r s.fsm)
      × (e.to_status ≡ st.status)
      × (e.to_status ≢ previous call.now r s.fsm)
      × EventOut t e out

  abbrev stepped : Target F → Fsm F × Bool × Option (Event F)
  stepped t = process call.now call.new_id r t s.fsm

  abbrev moved_server : Target F → Server S M
  moved_server t = record s { fsm = (stepped t).0 }

  pass_on-none :
      (b : Bool) (o : Option (Event F)) (s' : Server S M)
      → o ≡ none
      → pass_on S formats encode rfc3339 call b o s' ≡ (s', [])
  unfolding pass_on
  pass_on-none b o s' e = rw e refl

  pass_on-some :
      (b : Bool) (o : Option (Event F)) (s' : Server S M) (event : Event F)
      → b ≡ true
      → o ≡ some event
      → pass_on S formats encode rfc3339 call b o s' ≡ spread S formats encode rfc3339 call event s'
  unfolding pass_on
  pass_on-some b o s' event eb eo = rw (eb, eo) refl

  handle-known :
      (t : Target F)
      → S.get_target call.look_fault r.target_id s.store ≡ ok t
      → handle S formats encode rfc3339 call r s
        ≡ pass_on S formats encode rfc3339 call (stepped t).1 (stepped t).2 (moved_server t)
  unfolding handle
  handle-known t there = rw (there, handle) refl

  module _ (t : Target F) (sound : call.save_fault ≡ none) (looks : call.look_fault ≡ none)
      (looks_again : call.engine_fault ≡ none)
      (there : S.get_target none r.target_id s.store ≡ ok t)
      (distinct : Distinct s.engine.rules) where
    -- The engine finds the target that the handler found.
    found_again :
        (e : Event F)
        → e.target_id ≡ r.target_id
        → found
            (S.get_target call.engine_fault e.target_id (S.save_event call.save_fault e s.store).0)
          ≡ some t
    found_again e own =
        rw
          (
            looks_again,
            promises.get_target-save_event call.save_fault e e.target_id s.store,
            own,
            there,
          )
          refl

    EventOut-spread :
        (e : Event F)
        → e.target_id ≡ r.target_id
        → EventOut t e (spread S formats encode rfc3339 call e (moved_server t))
    unfolding spread
    EventOut-spread e own = (
      λ j. rw sound (promises.get_event-save_event e j s.store),
      λ j. promises.get_target-save_event call.save_fault e j s.store,
      refl,
      alerts-process formats
          (λ id.
            found (S.get_target call.engine_fault id (S.save_event call.save_fault e s.store).0))
          call.readings e t s.engine (found_again e own) distinct,
    )

    -- What `Process` reports goes out.
    handle-reported :
        (e : Event F) (st : TargetState F)
        → Moved r (previous call.now r s.fsm) e st (stepped t)
        → handle S formats encode rfc3339 call r s
          ≡ spread S formats encode rfc3339 call e (moved_server t)
    handle-reported e st m =
        handle-known t (rw looks there) ∙ pass_on-some _ _ (moved_server t) e m.changed m.event

    pub EventOut-handle :
        (e : Event F) (st : TargetState F)
        → Moved r (previous call.now r s.fsm) e st (stepped t)
        → EventOut t e (handle S formats encode rfc3339 call r s)
    EventOut-handle e st m =
        subst (EventOut t e) (sym (handle-reported e st m)) (EventOut-spread e m.target_is)

    fsm-handle :
        (e : Event F) (st : TargetState F)
        → Moved r (previous call.now r s.fsm) e st (stepped t)
        → get_state r.target_id (handle S formats encode rfc3339 call r s).0.fsm ≡ some st
    unfolding spread
    fsm-handle e st m =
        ap (λ out. get_state r.target_id out.0.fsm) (handle-reported e st m) ∙ m.stored

    -- The handler does all or nothing. For a target that the storage finds, rules with distinct names, and
    -- a storage that does not fail, either the status stays, or a window is active and it is
    -- MAINTENANCE, and nothing is saved, sent or broadcast; or the machine stores another status, and
    -- one event, from the old status to the new one, is found in the storage beside all events and
    -- targets of before, unless its identifier was taken, is broadcast, and is made into the alerts of
    -- the rules that are due, each sent to the reachable channels of its rule.
    pub handle-all_or_nothing :
        Silently t (handle S formats encode rfc3339 call r s)
        ⊎ Openly t (handle S formats encode rfc3339 call r s)
    handle-all_or_nothing =
        let known = handle-known t (rw looks there) in
        elim (process_outcome call.now call.new_id r t s.fsm) [
          | inl (st, quiet, why) ↦ inl (
              subst (Silently t) (sym (known ∙ pass_on-none _ _ (moved_server t) quiet.no_event))
                (st, quiet.stored, why, (refl, refl, refl, refl)))
          | inr (e, st, m, open_hours, live) ↦
              inr (e, st, fsm-handle e st m, m.from_is, m.to_is, m.differs, EventOut-handle e st m)
        ]
