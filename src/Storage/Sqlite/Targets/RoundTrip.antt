-- ===== src/Storage/Sqlite/Targets/RoundTrip.antt =====
-- What a saved target comes back as.
use gi_con_mon.Storage.Store.{stamp_target, saved_target, stored_target}
use gi_con_mon.Common.{String, ◌≡◌, refl, Option, none, some, if◌then◌else◌, str_eq, ap}
use gi_con_mon.Model.{Time, FloatOps, Target}
use gi_con_mon.Storage.{ok, Fault, err, no_rows, error_of}
use gi_con_mon.Storage.Sql.{Table, IsTable, merged}
use gi_con_mon.Storage.Json.{Json, IsJson}
use gi_con_mon.Storage.Sqlite.Rows.{TargetRow, is_one-bool_to_int}
use gi_con_mon.Storage.Sqlite.Columns.{
  strings_column, alert_config_column, any_map_column, hooks_column, maintenance_column,
}
use gi_con_mon.Storage.Sqlite.Statements.{query_row, exec, query_row-if, query_row-missing}
use gi_con_mon.Storage.Sqlite.Targets.{
  merge_target, target_row, scan_target, save_target, get_target, delete_target,
}

module _ {F : Type 0} ⦃fl : FloatOps F⦄ (J : Json F) (json : IsJson J) where
  scan_target-target_row : (t : Target F) → scan_target J (target_row J t) ≡ stored_target t
  unfolding scan_target target_row
  scan_target-target_row t =
      rw
        (
          strings_column J json t.tags,
          strings_column J json t.dependencies,
          strings_column J json t.probe_ids,
          alert_config_column J json t.alert_config,
          any_map_column J json t.probe_config,
          hooks_column J json t.hooks,
          maintenance_column J json t.maintenance,
          is_one-bool_to_int t.enabled,
        )
        refl

  scan_target-merged :
      (old : Option (TargetRow J.Text)) (t : Target F)
      → scan_target J (merged merge_target old (target_row J t))
        ≡ saved_target (query_row none (scan_target J) old) t
  unfolding scan_target merge_target query_row
  scan_target-merged none t = scan_target-target_row t
  scan_target-merged (some old) t =
      ap {A = Target F} (λ u. record u { created_at = old.created_at; created_by = old.created_by })
        (scan_target-target_row t)

  module _ (T : Table (TargetRow J.Text)) (table : IsTable (λ r. r.id) T) where
    pub get_target-save_target :
        (now : Time) (t : Target F) (j : String) (s : T.State)
        → get_target J T none j (save_target J T none now t s).0 ≡ (
            if str_eq t.id j
            then ok (saved_target (get_target J T none t.id s) (stamp_target now t))
            else get_target J T none j s)
    unfolding save_target get_target exec stamp_target target_row
    get_target-save_target now t j s =
        rw
          (
            table.find-insert merge_target (target_row J (stamp_target now t)) j s,
            query_row-if (scan_target J) (str_eq t.id j)
                (merged merge_target (T.find t.id s) (target_row J (stamp_target now t)))
                (T.find j s),
            scan_target-merged (T.find t.id s) (stamp_target now t),
          )
          refl

    pub save_target-outcome :
        (fault : Fault) (now : Time) (t : Target F) (s : T.State)
        → ((save_target J T fault now t s).1 ≡ error_of fault)
          × ((save_target J T fault now t s).2 ≡ stamp_target now t)
    unfolding save_target exec
    save_target-outcome none now t s = (refl, refl)
    save_target-outcome (some text) now t s = (refl, refl)

    -- A deleted target is gone, and no other.
    pub get_target-delete_target :
        (k j : String) (s : T.State)
        → get_target J T none j (delete_target J T none k s).0
          ≡ (if str_eq k j then err no_rows else get_target J T none j s)
    unfolding delete_target get_target exec
    get_target-delete_target k j s =
        rw (table.find-remove k j s) (query_row-missing (scan_target J) (str_eq k j) (T.find j s))

    pub delete_target-outcome :
        (fault : Fault) (k : String) (s : T.State)
        → (delete_target J T fault k s).1 ≡ error_of fault
    unfolding delete_target exec
    delete_target-outcome none k s = refl
    delete_target-outcome (some text) k s = refl

    pub failed_save :
        (text : String) (now : Time) (t : Target F) (s : T.State)
        → (save_target J T (some text) now t s).0 ≡ s
    unfolding save_target exec
    failed_save text now t s = refl

    pub failed_delete : (text k : String) (s : T.State) → (delete_target J T (some text) k s).0 ≡ s
    unfolding delete_target exec
    failed_delete text k s = refl
