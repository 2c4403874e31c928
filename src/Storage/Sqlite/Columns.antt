-- ===== src/Storage/Sqlite/Columns.antt =====
-- internal/storage/sqlite/sqlite.go: a column that `toJSON` wrote and `fromJSON` reads.
use gi_con_mon.Common.{String, List, Option, ◌≡◌, ◌∙◌, refl}
use gi_con_mon.Model.{FloatOps, AlertConfig, HookConfig, MaintenanceWindow, AnyMap}
use gi_con_mon.Storage.Json.{
  Json, IsJson, to_json, from_json, from_json-to_json, guarded, guarded-to_json, stored_map,
  stored_config, stored_window,
}

module _ {F : Type 0} ⦃fl : FloatOps F⦄ (J : Json F) (json : IsJson J) where
  -- A column of texts, and one that is read under a test of its own.
  pub strings_column :
      (xs : List String) → from_json J.show J.strings (to_json J.strings xs) J.strings.unset ≡ xs
  strings_column xs =
      from_json-to_json J.show J.strings json.strings_lawful xs ∙ json.view_strings xs

  pub alert_config_column :
      (a : AlertConfig F)
      → from_json J.show J.alert_config (to_json J.alert_config a) J.alert_config.unset
        ≡ stored_config a
  unfolding stored_config
  alert_config_column a =
      from_json-to_json J.show J.alert_config json.alert_config_lawful a
      ∙ rw (json.view_alert_config a, json.unset_alert_config) refl

  pub any_map_column :
      (m : AnyMap F)
      → from_json J.show J.any_map (to_json J.any_map m) J.any_map.unset ≡ stored_map m
  unfolding stored_map
  any_map_column m =
      from_json-to_json J.show J.any_map json.any_map_lawful m
      ∙ rw (json.view_any_map m, json.unset_any_map) refl

  pub hooks_column : (h : Option HookConfig) → guarded J.show J.hooks (to_json J.hooks h) ≡ h
  hooks_column h = guarded-to_json J.show J.hooks json.hooks_lawful h ∙ json.view_hooks h

  pub maintenance_column :
      (m : Option MaintenanceWindow)
      → guarded J.show J.maintenance (to_json J.maintenance m) ≡ stored_window m
  unfolding stored_window
  maintenance_column m =
      guarded-to_json J.show J.maintenance json.maintenance_lawful m
      ∙ rw (json.view_maintenance m, json.unset_maintenance) refl
