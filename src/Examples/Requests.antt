-- ===== src/Examples/Requests.antt =====
-- The theorems about internal/api/server.go at a server with a database in memory.
use gi_con_mon.Storage.Json.{to_json, finite_map}
use gi_con_mon.Api.Server.Serve.Kept.{KeepsHistory, serve_all, serve_all-KeepsHistory}
use gi_con_mon.Storage.{ok}
use gi_con_mon.Model.{Target, Time, firing}
use gi_con_mon.Common.{
  String, ◌≡◌, refl, [], none, ℕ, true, some, arith, Option, pos, lookup, insert, ◌∷◌,
}
use gi_con_mon.Storage.Sqlite.Targets as Sqlite
use gi_con_mon.Alerter.Lifecycle
use gi_con_mon.Api.Server.Targets.{
  handle_create_target, save_and_answer, handle_ack_alert, complete, unset_target,
}
use gi_con_mon.Storage.Store.{stamp_target}
use gi_con_mon.Storage.Sqlite.Store.{sqlite}
use gi_con_mon.Fsm.Process.{new_fsm, set_silent}
use gi_con_mon.Alerter.Engine.{new_engine}
use gi_con_mon.Api.Server.Requests.{
  Web, Env, Server, create_target, update_target, delete_target, ack_alert, Bound, unbound, bound,
  api_error,
}
use gi_con_mon.Api.Server.Serve.{serve}
use gi_con_mon.Api.Server.Serve.Completed.{Completes}
use gi_con_mon.Api.Server.Serve.Found.{
  Saves, create_target-Saves, update_target-Saves, Deletes, delete_target-Deletes,
}
use gi_con_mon.Api.Server.Serve.Errors.{serve-SafeFrom}
use gi_con_mon.Examples.Storing.{empty, store, store-IsStore}
use gi_con_mon.Examples.Samples.{milli, config}

-- A body is the text of a name, or cannot be read.
abbrev bind_name : Option String → Target ℕ → Bound ℕ
bind_name none t = unbound "EOF"
bind_name (some name) t = bound (record t { name = name })

abbrev pub frame : Web ℕ (Option String)
frame = record {
  bind = bind_name;
  scan_int = λ s. some (pos 7);
  alert_status = λ s. firing;
  error_text = λ e. "failed";
}

abbrev pub at : Time → Env
at now = record { now = now; new_id = "1"; fault = none; second_fault = none }

-- One target is watched and silenced, and none is stored.
abbrev fresh : Server store
unfolding sqlite
fresh = record {
  store = empty;
  fsm = set_silent 5 "web" true (new_fsm config);
  alerter = new_engine [] [] [];
}

abbrev created : Server store
created = (serve frame store (at 10) (create_target (some "shop")) fresh).0

create_target-Saves_example :
    (saved : Target ℕ) × Completes 10 "1" (record unset_target { name = "shop" }) saved
    × Saves frame store store-IsStore 201 saved
        (at 20)
        "target-1"
        fresh
        (serve frame store (at 10) (create_target (some "shop")) fresh)
create_target-Saves_example =
    create_target-Saves frame store store-IsStore (at 10) (at 20) "target-1" (some "shop")
      (record unset_target { name = "shop" }) fresh refl refl refl

-- The target as it is stored behind the request that made it.
abbrev shop : Target ℕ
shop = stamp_target 10 (complete "1" (record unset_target { name = "shop" }))

shop_stored : store.get_target none "target-1" created.store ≡ ok shop
unfolding sqlite Sqlite.get_target lookup serve handle_create_target save_and_answer
    Sqlite.save_target insert complete Sqlite.scan_target to_json finite_map
shop_stored = refl

update_target-Saves_example :
    Saves frame store store-IsStore 200
      (stamp_target 30 (record shop { id = "target-1"; name = "store" }))
      (at 40)
      "web"
      created
      (serve frame store (at 30) (update_target "target-1" (some "store")) created)
update_target-Saves_example =
    update_target-Saves frame store store-IsStore (at 30) (at 40) "target-1" "web" (some "store")
      shop (record shop { name = "store" }) created refl refl shop_stored refl

serve-SafeFrom_example : (serve frame store (at 30) (ack_alert "alert-9") created).0 ≡ created
unfolding serve handle_ack_alert Lifecycle.ack_alert lookup handle_create_target save_and_answer
    fresh new_engine api_error
serve-SafeFrom_example =
    serve-SafeFrom frame store store-IsStore (at 30) (ack_alert "alert-9") created (omega arith)

delete_target-Deletes_example :
    Deletes frame store store-IsStore "target-1"
      (at 60)
      "web"
      created
      (serve frame store (at 50) (delete_target "target-1") created)
delete_target-Deletes_example =
    delete_target-Deletes frame store store-IsStore (at 50) (at 60) "target-1" "web" created refl
      refl

serve_all-KeepsHistory_example : KeepsHistory frame store fresh (
    serve_all frame store
      ((at 7, create_target (some "web")) ∷ (at 8, delete_target "target-1") ∷ [])
      fresh)
serve_all-KeepsHistory_example =
    serve_all-KeepsHistory frame store store-IsStore
      ((at 7, create_target (some "web")) ∷ (at 8, delete_target "target-1") ∷ []) fresh
