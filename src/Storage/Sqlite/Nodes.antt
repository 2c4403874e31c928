-- ===== src/Storage/Sqlite/Nodes.antt =====
-- internal/storage/sqlite/sqlite.go: `SaveProbeNode`, `GetProbeNode`, `ListProbeNodes` and `scanProbeNode`.
pub mod RoundTrip
use gi_con_mon.Storage.{Fault, Result, StoreError, ok, err, engine_error}
use gi_con_mon.Storage.Sqlite.Statements.{replace_row, query_row, exec}
use gi_con_mon.Model.{ProbeNode}
use gi_con_mon.Storage.Sql.{Table}
use gi_con_mon.Common.{String, Bool, Option, List, map, true, some, none}
use gi_con_mon.Storage.Json.{Json, to_json, from_json}
use gi_con_mon.Storage.Sqlite.Rows.{NodeRow}

module _ {F : Type 0} (J : Json F) where
  -- The arguments of the INSERT.
  unfoldable pub node_row : ProbeNode → NodeRow J.Text
  node_row n = record {
    id = n.id;
    name = n.name;
    location = n.location;
    isp = n.isp;
    tags = to_json J.strings n.tags;
    ip_address = n.ip_address;
    version = n.version;
    status = n.status;
    last_heartbeat = n.last_heartbeat;
    assigned_targets = n.assigned_targets;
    capabilities = to_json J.strings n.capabilities;
    registered_at = n.registered_at;
  }

  -- `scanProbeNode`
  unfoldable pub scan_probe_node : NodeRow J.Text → ProbeNode
  unfolding from_json
  scan_probe_node r = record {
    id = r.id;
    name = r.name;
    location = r.location;
    isp = r.isp;
    tags = from_json J.show J.strings r.tags J.strings.unset;
    ip_address = r.ip_address;
    version = r.version;
    status = r.status;
    last_heartbeat = r.last_heartbeat;
    assigned_targets = r.assigned_targets;
    capabilities = from_json J.show J.strings r.capabilities J.strings.unset;
    registered_at = r.registered_at;
  }

  module _ (T : Table (NodeRow J.Text)) where
    -- `SaveProbeNode`
    unfoldable pub save_probe_node : Fault → ProbeNode → T.State → T.State × Option StoreError
    unfolding exec node_row
    save_probe_node fault n s = exec fault (T.insert replace_row (node_row n)) s

    -- `GetProbeNode`
    unfoldable pub get_probe_node : Fault → String → T.State → Result ProbeNode
    unfolding query_row
    get_probe_node fault id s = query_row fault scan_probe_node (T.find id s)

    -- `ListProbeNodes`; `by_name` is the engine's order of texts.
    unfoldable pub list_probe_nodes :
        (String → String → Bool) → Fault → T.State → Result (List ProbeNode)
    list_probe_nodes by_name none s =
        ok (map scan_probe_node (T.scan (λ r. true) (λ a b. by_name a.name b.name) s))
    list_probe_nodes by_name (some text) s = err (engine_error text)
