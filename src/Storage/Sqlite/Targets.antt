-- ===== src/Storage/Sqlite/Targets.antt =====
-- internal/storage/sqlite/sqlite.go: `SaveTarget`, `GetTarget`, `ListTargets`, `DeleteTarget` and
-- `scanTarget`.
pub mod RoundTrip
use gi_con_mon.Common.{String, Bool, Option, none, some, List, [], ℤ, pos, if◌then◌else◌, str_eq}
use gi_con_mon.Model.{Time, is_zero, FloatOps, Target, AlertConfig}
use gi_con_mon.Storage.{Fault, StoreError, Result, Page, TargetQuery}
use gi_con_mon.Storage.Store.{stamp_target}
use gi_con_mon.Storage.Sql.{Table}
use gi_con_mon.Storage.Json.{Json, to_json, from_json, guarded}
use gi_con_mon.Storage.Sqlite.Rows.{TargetRow, bool_to_int, is_one}
use gi_con_mon.Storage.Sqlite.Where.{target_conds, target_meets, all_meet}
use gi_con_mon.Storage.Sqlite.Statements.{exec, query_row, limit_or, list_page}

-- `DO UPDATE SET`: every column but the key, `created_at` and `created_by`.
unfoldable pub merge_target : {Text : Type 0} → TargetRow Text → TargetRow Text → TargetRow Text
merge_target old excluded = record excluded {
  created_at = old.created_at;
  created_by = old.created_by;
}

module _ {F : Type 0} (J : Json F) where
  -- The arguments of the INSERT.
  unfoldable pub target_row : Target F → TargetRow J.Text
  target_row t = record {
    id = t.id;
    name = t.name;
    host = t.host;
    port = t.port;
    protocol = t.protocol;
    interval_sec = t.interval_sec;
    timeout_ms = t.timeout_ms;
    retries = t.retries;
    priority = t.priority;
    tags = to_json J.strings t.tags;
    dependencies = to_json J.strings t.dependencies;
    probe_ids = to_json J.strings t.probe_ids;
    alert_config = to_json J.alert_config t.alert_config;
    probe_config = to_json J.any_map t.probe_config;
    hooks = to_json J.hooks t.hooks;
    maintenance = to_json J.maintenance t.maintenance;
    enabled = bool_to_int t.enabled;
    created_at = t.created_at;
    updated_at = t.updated_at;
    created_by = t.created_by;
  }

  -- `scanTarget`
  unfoldable pub scan_target : TargetRow J.Text → Target F
  unfolding from_json guarded
  scan_target r = record {
    id = r.id;
    name = r.name;
    host = r.host;
    port = r.port;
    protocol = r.protocol;
    interval_sec = r.interval_sec;
    timeout_ms = r.timeout_ms;
    retries = r.retries;
    priority = r.priority;
    tags = from_json J.show J.strings r.tags J.strings.unset;
    dependencies = from_json J.show J.strings r.dependencies J.strings.unset;
    probe_ids = from_json J.show J.strings r.probe_ids J.strings.unset;
    alert_config = from_json J.show J.alert_config r.alert_config J.alert_config.unset;
    probe_config = from_json J.show J.any_map r.probe_config J.any_map.unset;
    hooks = guarded J.show J.hooks r.hooks;
    maintenance = guarded J.show J.maintenance r.maintenance;
    enabled = is_one r.enabled;
    created_at = r.created_at;
    updated_at = r.updated_at;
    created_by = r.created_by;
  }

  module _ (T : Table (TargetRow J.Text)) where
    -- `SaveTarget`, with the target as it leaves it to its caller.
    unfoldable pub save_target :
        Fault → Time → Target F → T.State → T.State × Option StoreError × Target F
    unfolding exec target_row stamp_target
    save_target fault now t s =
        let t' = stamp_target now t in
        let (s', e) = exec fault (T.insert merge_target (target_row t')) s in (s', e, t')

    -- `GetTarget`
    unfoldable pub get_target : Fault → String → T.State → Result (Target F)
    unfolding query_row
    get_target fault id s = query_row fault scan_target (T.find id s)

    -- `ListTargets`; `by_name` is the engine's order of texts, `like` its LIKE.
    unfoldable pub list_targets :
        (String → String → Bool)
        → (String → String → Bool)
        → Fault
        → Fault
        → TargetQuery
        → T.State
        → Result (Page (Target F))
    unfolding list_page
    list_targets like by_name count_fault data_fault q s =
        list_page T count_fault data_fault scan_target
          (λ r. all_meet (target_meets like r) (target_conds q)) (λ a b. by_name a.name b.name)
          (limit_or (pos 100) q.limit) q.offset s

    -- `DeleteTarget`
    unfoldable pub delete_target : Fault → String → T.State → T.State × Option StoreError
    unfolding exec
    delete_target fault id s = exec fault (T.remove id) s
