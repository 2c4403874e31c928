-- ===== src/Fsm/Process/Outcome.antt =====
-- What a caller of `Process` of internal/fsm/fsm.go is told, against what the machine stores.
use gi_con_mon.Common.{
  String, ◌≡◌, refl, Bool, true, false, Option, none, some, Bool-cases, inl, inr, ◌⊎◌, ◌≢◌,
}
use gi_con_mon.Model.{
  Time, FloatOps, Status, maintenance, silent, status_eq_iff, status_eq-false, sub, milliseconds,
  Target, is_active, ProbeResult, TargetState, Event, status_changed, status_cases,
}
use gi_con_mon.Fsm.Machine.{Fsm, get_or_create, put_state}
use gi_con_mon.Fsm.Process.{Detected, make_event, commit_state, conclude, process, get_state}
use gi_con_mon.Fsm.Process.Branches.{
  counted, previous, detected, process-maintained, process-silent, process-concludes,
  get_state-put_state, status-observe, status-detected,
}

module _ {F : Type 0} where
  -- Nothing is reported, and the entry is `s`.
  pub record Quiet (id : String) (s : TargetState F) (out : Fsm F × Bool × Option (Event F))
      : Type 0 where
    pub not_changed : out.1 ≡ false
    pub no_event : out.2 ≡ none
    pub stored : get_state id out.0 ≡ some s

  -- A transition from `prev` is reported by the event `e`, and stored in the entry `s`.
  pub record Moved (r : ProbeResult F) (prev : Status) (e : Event F) (s : TargetState F)
      (out : Fsm F × Bool × Option (Event F)) : Type 0 where
    pub changed : out.1 ≡ true
    pub event : out.2 ≡ some e
    pub stored : get_state r.target_id out.0 ≡ some s
    pub differs : e.to_status ≢ prev
    pub from_is : e.from_status ≡ prev
    pub to_is : e.to_status ≡ s.status
    pub last_is : s.last_status ≡ prev
    pub since_is : s.status_changed_at ≡ r.timestamp
    pub at_is : e.timestamp ≡ r.timestamp
    pub target_is : e.target_id ≡ r.target_id
    pub type_is : e.type ≡ status_changed

  -- The event that `conclude` makes.
  abbrev pub event_of : String → ProbeResult F → Target F → Status → Detected F → Event F
  event_of id r t prev d =
      make_event id r t prev d.status d.state
        (milliseconds (sub r.timestamp d.state.status_changed_at))

  pub conclude-Quiet :
      (id : String) (r : ProbeResult F) (t : Target F) (prev : Status) (d : Detected F) (f : Fsm F)
      → d.status ≡ prev
      → Quiet r.target_id d.state (conclude id r t prev d f)
  unfolding conclude
  conclude-Quiet id r t prev d f e =
      rw ((status_eq_iff d.status prev).1 e)
        (record { not_changed = refl; no_event = refl; stored = get_state-put_state _ _ _ })

  pub conclude-Moved :
      (id : String) (r : ProbeResult F) (t : Target F) (prev : Status) (d : Detected F) (f : Fsm F)
      → d.status ≢ prev
      → Moved r prev
          (event_of id r t prev d)
          (commit_state r prev d.status d.state)
          (conclude id r t prev d f)
  unfolding conclude
  conclude-Moved id r t prev d f h = rw (status_eq-false d.status prev h) (record {
    changed = refl;
    event = refl;
    stored = get_state-put_state _ _ _;
    differs = h;
    from_is = refl;
    to_is = refl;
    last_is = refl;
    since_is = refl;
    at_is = refl;
    target_is = refl;
    type_is = refl;
  })

module _ {F : Type 0} ⦃fl : FloatOps F⦄ where
  module _ (now : Time) (id : String) (r : ProbeResult F) (t : Target F) (f : Fsm F) where
    abbrev pub StaysQuiet : Type 0
    StaysQuiet =
        (s : TargetState F) × Quiet r.target_id s (process now id r t f)
        × ((s.status ≡ previous now r f)
            ⊎ ((is_active t.maintenance r.timestamp ≡ true) × (s.status ≡ maintenance)))

    abbrev pub Reports : Type 0
    Reports =
        (e : Event F) × (s : TargetState F) × Moved r (previous now r f) e s (process now id r t f)
        × (is_active t.maintenance r.timestamp ≡ false)
        × (previous now r f ≢ silent)

    concludes :
        is_active t.maintenance r.timestamp ≡ false
        → previous now r f ≢ silent
        → StaysQuiet ⊎ Reports
    concludes h live =
        rw (process-concludes now id r t f h live)
          (elim (status_cases (detected now r t f).status (previous now r f)) [
            | inl same ↦ inl (
              (detected now r t f).state,
              conclude-Quiet id r t (previous now r f) (detected now r t f) f same,
              inl (status-detected now r t f),
            )
            | inr other ↦ inr (
              event_of id r t (previous now r f) (detected now r t f),
              commit_state r (previous now r f) (detected now r t f).status
                  (detected now r t f).state,
              conclude-Moved id r t (previous now r f) (detected now r t f) f other,
              h,
              live,
            )
          ])

    -- `Process` reports a change, by an event, exactly when the status that it stores differs from
    -- the status before for a reason other than a maintenance window: either it reports nothing, and
    -- the status stays or a window is active and the status is MAINTENANCE; or it reports the event of
    -- the transition that it stores, outside every window and from a status other than SILENT.
    pub process_outcome : StaysQuiet ⊎ Reports
    process_outcome = elim (Bool-cases (is_active t.maintenance r.timestamp)) [
      | inl active ↦ inl (
        record (counted now r f) { status = maintenance },
        rw (process-maintained now id r t f active) (quiet_put _),
        inr (active, refl),
      )
      | inr open_hours ↦ elim (status_cases (previous now r f) silent) [
        | inl mute ↦ inl (
          counted now r f,
          rw (process-silent now id r t f open_hours mute) (quiet_put _),
          inl (status-observe r (get_or_create now r.target_id f)),
        )
        | inr live ↦ concludes open_hours live
      ]
    ]
      where
        quiet_put :
            (s : TargetState F) → Quiet r.target_id s (put_state r.target_id s f, false, none)
        quiet_put s = record {
          not_changed = refl;
          no_event = refl;
          stored = get_state-put_state r.target_id s f;
        }
