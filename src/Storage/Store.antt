-- ===== src/Storage/Store.antt =====
-- internal/storage/storage.go: `Store`, the interface that the rest of the program has of the storage. What
-- goes wrong in an operation is an argument; an operation of two statements takes two.
use gi_con_mon.Storage.{
  ok, err, StoreError, TargetQuery, error_of, no_rows, Page, EventQuery, AlertQuery,
}
use gi_con_mon.Model.{Time, FloatOps, Alert, Event, Target, is_zero, ProbeNode, Duration, add_neg}
use gi_con_mon.Common.{Bool, ◌≡◌, String, if◌then◌else◌, true, Option, none, str_eq, some, List}
use gi_con_mon.Storage.Queries.{Fault, Result, ok}
use gi_con_mon.Storage.Json.{stored_map, stored_config, stored_window}

-- `Store`. `SaveTarget` also stamps the target of its caller.
pub record Store (F : Type 0) : Type 1 where
  pub State : Type 0
  -- how the storage compares two instants that it holds
  pub earlier : Time → Time → Bool
  pub save_target : Fault → Time → Target F → State → State × Option StoreError × Target F
  pub get_target : Fault → String → State → Result (Target F)
  pub list_targets : Fault → Fault → TargetQuery → State → Result (Page (Target F))
  pub delete_target : Fault → String → State → State × Option StoreError
  pub save_event : Fault → Event F → State → State × Option StoreError
  pub get_event : Fault → String → State → Result (Event F)
  pub list_events : Fault → Fault → EventQuery → State → Result (Page (Event F))
  pub ack_event : Fault → Time → String → String → State → State × Option StoreError
  pub save_alert : Fault → Alert → State → State × Option StoreError
  pub get_alert : Fault → String → State → Result Alert
  pub list_alerts : Fault → Fault → AlertQuery → State → Result (Page Alert)
  pub update_alert : Fault → Alert → State → State × Option StoreError
  pub save_probe_node : Fault → ProbeNode → State → State × Option StoreError
  pub get_probe_node : Fault → String → State → Result ProbeNode
  pub list_probe_nodes : Fault → State → Result (List ProbeNode)
  pub cleanup :
      Fault → Fault → Time → Time → Duration → Duration → State → State × Option StoreError

-- The stamps that `SaveTarget` puts on the caller's target.
unfoldable pub stamp_target : {F : Type 0} → Time → Target F → Target F
stamp_target now t = record t {
  created_at = if is_zero t.created_at then now else t.created_at;
  updated_at = now;
}

module _ {F : Type 0} ⦃fl : FloatOps F⦄ where
  -- What is read back of a target: its options, thresholds and window have passed through JSON.
  abbrev pub stored_target : Target F → Target F
  stored_target t = record t {
    alert_config = stored_config t.alert_config;
    probe_config = stored_map t.probe_config;
    maintenance = stored_window t.maintenance;
  }

  -- A saved target, where what was stored under its identifier before gives its creation.
  abbrev pub saved_target : Result (Target F) → Target F → Target F
  saved_target (ok old) t = record (stored_target t) {
    created_at = old.created_at;
    created_by = old.created_by;
  }
  saved_target (err e) t = stored_target t

  -- A saved event: the first one with the identifier counts.
  abbrev pub saved_event : Result (Event F) → Event F → Event F
  saved_event (ok old) e = old
  saved_event (err x) e = record e { meta = stored_map e.meta }

-- A change of what is stored, where something is.
abbrev pub changed : {A : Type 0} → (A → A) → Result A → Result A
changed f (ok a) = ok (f a)
changed f (err e) = err e

abbrev pub acked_event : {F : Type 0} → String → Time → Event F → Event F
acked_event user now e = record e { acknowledged = true; acked_by = user; acked_at = some now }

-- The fields that `UpdateAlert` writes.
abbrev pub progressed : Alert → Alert → Alert
progressed a b = record b {
  status = a.status;
  resolved_at = a.resolved_at;
  escalation_level = a.escalation_level;
  next_escalate_at = a.next_escalate_at;
}

-- What is stored, unless it is too old, as `earlier` compares instants.
abbrev pub unless_old :
    {A : Type 0} → (Time → Time → Bool) → (A → Time) → Time → Result A → Result A
unless_old earlier time cut (ok a) = if earlier (time a) cut then err no_rows else ok a
unless_old earlier time cut (err e) = err e

-- The promises of a storage: what is saved is found until it is deleted or too old, and an operation
-- that fails changes nothing. What holds of an operation holds for every other identifier too.
pub record IsStore {F : Type 0} ⦃fl : FloatOps F⦄ (S : Store F) : Type 0 where
  pub get_target-save_target :
      (now : Time) (t : Target F) (j : String) (s : S.State)
      → S.get_target none j (S.save_target none now t s).0 ≡ (
          if str_eq t.id j
          then ok (saved_target (S.get_target none t.id s) (stamp_target now t))
          else S.get_target none j s)
  pub save_target-outcome :
      (fault : Fault) (now : Time) (t : Target F) (s : S.State)
      → ((S.save_target fault now t s).1 ≡ error_of fault)
        × ((S.save_target fault now t s).2 ≡ stamp_target now t)
  pub get_target-delete_target :
      (k j : String) (s : S.State)
      → S.get_target none j (S.delete_target none k s).0
        ≡ (if str_eq k j then err no_rows else S.get_target none j s)
  pub delete_target-outcome :
      (fault : Fault) (k : String) (s : S.State) → (S.delete_target fault k s).1 ≡ error_of fault
  pub get_event-save_event :
      (e : Event F) (j : String) (s : S.State)
      → S.get_event none j (S.save_event none e s).0 ≡ (
          if str_eq e.id j
          then ok (saved_event (S.get_event none e.id s) e)
          else S.get_event none j s)
  pub get_target-save_event :
      (fault : Fault) (e : Event F) (j : String) (s : S.State)
      → S.get_target none j (S.save_event fault e s).0 ≡ S.get_target none j s
  pub get_event-save_target :
      (fault : Fault) (now : Time) (t : Target F) (j : String) (s : S.State)
      → S.get_event none j (S.save_target fault now t s).0 ≡ S.get_event none j s
  pub get_event-delete_target :
      (fault : Fault) (k j : String) (s : S.State)
      → S.get_event none j (S.delete_target fault k s).0 ≡ S.get_event none j s
  pub get_alert-save_target :
      (fault : Fault) (now : Time) (t : Target F) (j : String) (s : S.State)
      → S.get_alert none j (S.save_target fault now t s).0 ≡ S.get_alert none j s
  pub get_alert-delete_target :
      (fault : Fault) (k j : String) (s : S.State)
      → S.get_alert none j (S.delete_target fault k s).0 ≡ S.get_alert none j s
  pub get_event-ack_event :
      (now : Time) (k user j : String) (s : S.State)
      → S.get_event none j (S.ack_event none now k user s).0 ≡ (
          if str_eq k j
          then changed (acked_event user now) (S.get_event none j s)
          else S.get_event none j s)
  pub get_alert-save_alert :
      (a : Alert) (j : String) (s : S.State)
      → S.get_alert none j (S.save_alert none a s).0
        ≡ (if str_eq a.id j then ok a else S.get_alert none j s)
  pub get_alert-update_alert :
      (a : Alert) (j : String) (s : S.State)
      → S.get_alert none j (S.update_alert none a s).0 ≡ (
          if str_eq a.id j
          then changed (progressed a) (S.get_alert none j s)
          else S.get_alert none j s)
  pub get_probe_node-save_probe_node :
      (n : ProbeNode) (j : String) (s : S.State)
      → S.get_probe_node none j (S.save_probe_node none n s).0
        ≡ (if str_eq n.id j then ok n else S.get_probe_node none j s)
  pub get_event-cleanup :
      (now_events now_alerts : Time) (retention_events retention_alerts : Duration) (j : String)
      (s : S.State)
      → S.get_event none j
          (S.cleanup none none now_events now_alerts retention_events retention_alerts s).0
        ≡ unless_old S.earlier
            (λ e. e.timestamp)
            (add_neg now_events retention_events)
            (S.get_event none j s)
  pub get_alert-cleanup :
      (now_events now_alerts : Time) (retention_events retention_alerts : Duration) (j : String)
      (s : S.State)
      → S.get_alert none j
          (S.cleanup none none now_events now_alerts retention_events retention_alerts s).0
        ≡ unless_old S.earlier
            (λ a. a.sent_at)
            (add_neg now_alerts retention_alerts)
            (S.get_alert none j s)
  pub failed_save :
      (text : String) (now : Time) (t : Target F) (s : S.State)
      → (S.save_target (some text) now t s).0 ≡ s
  pub failed_delete : (text k : String) (s : S.State) → (S.delete_target (some text) k s).0 ≡ s
  pub failed_event :
      (text : String) (e : Event F) (s : S.State) → (S.save_event (some text) e s).0 ≡ s
