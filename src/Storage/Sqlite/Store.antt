-- ===== src/Storage/Sqlite/Store.antt =====
-- internal/storage/sqlite/sqlite.go: `Store` over its four tables, as an implementation of the interface.
use gi_con_mon.Model.{FloatOps, Time}
use gi_con_mon.Storage.Sqlite.Rows.{TargetRow, EventRow, AlertRow, NodeRow}
use gi_con_mon.Storage.Sqlite.Targets.{target_row}
use gi_con_mon.Storage.Sql.{IsTable, Table}
use gi_con_mon.Common.{String, Bool, not, ap, refl}
use gi_con_mon.Storage.Store.{Store, IsStore}
use gi_con_mon.Storage.Json.{Json, IsJson}
use gi_con_mon.Storage.Sqlite.Targets
use gi_con_mon.Storage.Sqlite.Targets.RoundTrip
use gi_con_mon.Storage.Sqlite.Events
use gi_con_mon.Storage.Sqlite.Events.Kept
use gi_con_mon.Storage.Sqlite.Alerts
use gi_con_mon.Storage.Sqlite.Alerts.RoundTrip as AlertsRoundTrip
use gi_con_mon.Storage.Sqlite.Nodes
use gi_con_mon.Storage.Sqlite.Nodes.RoundTrip as NodesRoundTrip
use gi_con_mon.Storage.Sqlite.Cleanup
use gi_con_mon.Storage.Sqlite.Cleanup.Expiry

-- The tables of a database.
pub record Database (Text : Type 0) : Type 1 where
  pub targets : Table (TargetRow Text)
  pub events : Table (EventRow Text)
  pub alerts : Table (AlertRow Text)
  pub nodes : Table (NodeRow Text)

pub record IsDatabase {Text : Type 0} (D : Database Text) : Type 0 where
  pub targets_lawful : IsTable (λ r. r.id) D.targets
  pub events_lawful : IsTable (λ r. r.id) D.events
  pub alerts_lawful : IsTable (λ r. r.id) D.alerts
  pub nodes_lawful : IsTable (λ r. r.id) D.nodes

-- What the tables hold.
pub record Contents {Text : Type 0} (D : Database Text) : Type 0 where
  pub targets : D.targets.State
  pub events : D.events.State
  pub alerts : D.alerts.State
  pub nodes : D.nodes.State

module _ {F : Type 0} (J : Json F) (D : Database J.Text) (like by_name : String → String → Bool)
    (written : Time → String) where
  -- `ORDER BY`, `<=` and `>=` on two columns of instants, which are texts.
  abbrev pub upto : Time → Time → Bool
  upto a b = by_name (written a) (written b)

  -- The store; `like` is the engine's LIKE, `by_name` its order of texts, and `written` the text in which
  -- the driver writes an instant into a column, with the offset that the zone of the process has then.
  unfoldable pub sqlite : Store F
  sqlite = record {
    State = Contents D;
    earlier = λ a b. not (upto b a);
    save_target = λ fault now t s.
        let (targets, e, saved) = Targets.save_target J D.targets fault now t s.targets in
        (record s { targets = targets }, e, saved);
    get_target = λ fault id s. Targets.get_target J D.targets fault id s.targets;
    list_targets = λ f g q s. Targets.list_targets J D.targets like by_name f g q s.targets;
    delete_target = λ fault id s.
        let (targets, e) = Targets.delete_target J D.targets fault id s.targets in
        (record s { targets = targets }, e);
    save_event = λ fault e s.
        let (events, x) = Events.save_event J D.events fault e s.events in
        (record s { events = events }, x);
    get_event = λ fault id s. Events.get_event J D.events fault id s.events;
    list_events = λ f g q s. Events.list_events J D.events upto f g q s.events;
    ack_event = λ fault now id user s.
        let (events, x) = Events.ack_event J D.events fault now id user s.events in
        (record s { events = events }, x);
    save_alert = λ fault a s.
        let (alerts, x) = Alerts.save_alert J D.alerts fault a s.alerts in
        (record s { alerts = alerts }, x);
    get_alert = λ fault id s. Alerts.get_alert J D.alerts fault id s.alerts;
    list_alerts = λ f g q s. Alerts.list_alerts J D.alerts upto f g q s.alerts;
    update_alert = λ fault a s.
        let (alerts, x) = Alerts.update_alert J D.alerts fault a s.alerts in
        (record s { alerts = alerts }, x);
    save_probe_node = λ fault n s.
        let (nodes, x) = Nodes.save_probe_node J D.nodes fault n s.nodes in
        (record s { nodes = nodes }, x);
    get_probe_node = λ fault id s. Nodes.get_probe_node J D.nodes fault id s.nodes;
    list_probe_nodes = λ fault s. Nodes.list_probe_nodes J D.nodes by_name fault s.nodes;
    cleanup = λ f g now_events now_alerts keep_events keep_alerts s.
        let (events, alerts, x) =
          Cleanup.cleanup D.events D.alerts upto f g now_events now_alerts keep_events keep_alerts
            s.events s.alerts in
        (record s { events = events; alerts = alerts }, x);
  }

  module _ ⦃fl : FloatOps F⦄ (json : IsJson J) (lawful : IsDatabase D) where
    -- Over tables and a JSON library that behave as documented, the store keeps the promises of the
    -- interface: a saved target, event, alert or probe node is found as saved, where a target that
    -- is saved again keeps its creation, an event only counts the first time, numbers in maps come
    -- back as `float64`, and options, thresholds or a window that JSON refuses come back as their zero
    -- value; `AckEvent` and `UpdateAlert` change their fields of that row alone; `DeleteTarget` removes
    -- that target alone, and `Cleanup` the events and alerts whose instant, as the text that the driver
    -- writes, comes before the text of the cutoff; targets and the history of events and alerts do not
    -- touch one another, so that the events and alerts of a deleted target stay; and a `SaveTarget` or
    -- `DeleteTarget` that fails says so, and like a `SaveEvent` that fails it changes nothing.
    pub sqlite-IsStore : IsStore sqlite
    unfolding sqlite
    sqlite-IsStore = record {
      get_target-save_target = λ now t j s.
          RoundTrip.get_target-save_target J json D.targets lawful.targets_lawful now t j s.targets;
      save_target-outcome = λ fault now t s.
          RoundTrip.save_target-outcome J json D.targets lawful.targets_lawful fault now t
            s.targets;
      get_target-delete_target = λ k j s.
          RoundTrip.get_target-delete_target J json D.targets lawful.targets_lawful k j s.targets;
      delete_target-outcome = λ fault k s.
          RoundTrip.delete_target-outcome J json D.targets lawful.targets_lawful fault k s.targets;
      get_event-save_event =
          λ e j s. Kept.get_event-save_event J json D.events lawful.events_lawful e j s.events;
      get_target-save_event = λ fault e j s. refl;
      get_event-save_target = λ fault now t j s. refl;
      get_event-delete_target = λ fault k j s. refl;
      get_alert-save_target = λ fault now t j s. refl;
      get_alert-delete_target = λ fault k j s. refl;
      get_event-ack_event = λ now k user j s.
          Kept.get_event-ack_event J json D.events lawful.events_lawful now k user j s.events;
      get_alert-save_alert = λ a j s.
          AlertsRoundTrip.get_alert-save_alert J json D.alerts lawful.alerts_lawful a j s.alerts;
      get_alert-update_alert = λ a j s.
          AlertsRoundTrip.get_alert-update_alert J json D.alerts lawful.alerts_lawful a j s.alerts;
      get_probe_node-save_probe_node = λ n j s.
          NodesRoundTrip.get_probe_node-save_probe_node J json D.nodes lawful.nodes_lawful n j
            s.nodes;
      get_event-cleanup = λ now_events now_alerts keep_events keep_alerts j s.
          Expiry.get_event-cleanup J D.events D.alerts upto lawful.events_lawful now_events
            now_alerts keep_events keep_alerts j s.events s.alerts;
      get_alert-cleanup = λ now_events now_alerts keep_events keep_alerts j s.
          Expiry.get_alert-cleanup J D.events D.alerts upto lawful.alerts_lawful now_events
            now_alerts keep_events keep_alerts j s.events s.alerts;
      failed_save = λ text now t s.
          ap {A = D.targets.State} (λ targets. record s { targets = targets })
            (RoundTrip.failed_save J json D.targets lawful.targets_lawful text now t s.targets);
      failed_delete = λ text k s.
          ap {A = D.targets.State} (λ targets. record s { targets = targets })
            (RoundTrip.failed_delete J json D.targets lawful.targets_lawful text k s.targets);
      failed_event = λ text e s.
          ap {A = D.events.State} (λ events. record s { events = events })
            (Kept.failed_event J json D.events lawful.events_lawful text e s.events);
    }
