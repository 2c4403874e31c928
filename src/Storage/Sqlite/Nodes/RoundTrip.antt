-- ===== src/Storage/Sqlite/Nodes/RoundTrip.antt =====
-- What a saved probe node comes back as.
use gi_con_mon.Storage.{ok}
use gi_con_mon.Storage.Sqlite.Rows.{NodeRow}
use gi_con_mon.Storage.Sqlite.Statements.{exec, query_row-if, merged-replace_row, replace_row}
use gi_con_mon.Storage.Sql.{Table, IsTable, merged}
use gi_con_mon.Storage.Sqlite.Nodes.{scan_probe_node, node_row, save_probe_node, get_probe_node}
use gi_con_mon.Model.{FloatOps, ProbeNode}
use gi_con_mon.Common.{◌≡◌, refl, String, none, if◌then◌else◌, str_eq}
use gi_con_mon.Storage.Json.{Json, IsJson}
use gi_con_mon.Storage.Sqlite.Columns.{strings_column}

module _ {F : Type 0} ⦃fl : FloatOps F⦄ (J : Json F) (json : IsJson J) where
  scan_probe_node-node_row : (n : ProbeNode) → scan_probe_node J (node_row J n) ≡ n
  unfolding scan_probe_node node_row
  scan_probe_node-node_row n =
      rw (strings_column J json n.tags, strings_column J json n.capabilities) refl

  module _ (T : Table (NodeRow J.Text)) (table : IsTable (λ r. r.id) T) where
    pub get_probe_node-save_probe_node :
        (n : ProbeNode) (j : String) (s : T.State)
        → get_probe_node J T none j (save_probe_node J T none n s).0
          ≡ (if str_eq n.id j then ok n else get_probe_node J T none j s)
    unfolding save_probe_node get_probe_node exec node_row
    get_probe_node-save_probe_node n j s =
        rw
          (
            table.find-insert replace_row (node_row J n) j s,
            query_row-if (scan_probe_node J) (str_eq n.id j)
                (merged replace_row (T.find n.id s) (node_row J n)) (T.find j s),
            merged-replace_row (T.find n.id s) (node_row J n),
            scan_probe_node-node_row n,
          )
          refl
