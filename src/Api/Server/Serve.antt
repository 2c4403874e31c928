-- ===== src/Api/Server/Serve.antt =====
-- internal/api/server.go: `registerRoutes`, the handler of each route.
pub mod Errors
pub mod Completed
pub mod Found
pub mod Kept
use gi_con_mon.Model.{FloatOps}
use gi_con_mon.Common.{String}
use gi_con_mon.Storage.Store.{Store}
use gi_con_mon.Api.Server.Requests.{
  Request, get_status, list_targets, create_target, get_target, update_target, delete_target,
  target_status, target_events, probe_now, silence_target, unsilence_target, list_alerts, get_alert,
  ack_alert, list_probes, Web, Env, Server, Response,
}
use gi_con_mon.Api.Server.Targets.{
  handle_create_target, handle_update_target, handle_delete_target, handle_silence_target,
  handle_unsilence_target, handle_ack_alert,
}
use gi_con_mon.Api.Server.Reading.{
  handle_get_target, handle_global_status, handle_list_targets, handle_target_status,
  handle_target_events, handle_probe_now, handle_list_alerts, handle_get_alert, handle_list_probes,
}

module _ {F Raw : Type 0} ⦃fl : FloatOps F⦄ (web : Web F Raw) (S : Store F) where
  -- The table of routes.
  unfoldable pub serve : Env → Request Raw → Server S → Server S × Response F
  serve env get_status s = (s, handle_global_status web S env s)
  serve env (list_targets protocol search limit offset) s =
      (s, handle_list_targets web S env protocol search limit offset s)
  serve env (create_target raw) s = handle_create_target web S env raw s
  serve env (get_target id) s = (s, handle_get_target web S env id s)
  serve env (update_target id raw) s = handle_update_target web S env id raw s
  serve env (delete_target id) s = handle_delete_target web S env id s
  serve env (target_status id) s = (s, handle_target_status web S id s)
  serve env (target_events id limit offset) s =
      (s, handle_target_events web S env id limit offset s)
  serve env (probe_now id) s = (s, handle_probe_now web S)
  serve env (silence_target id) s = handle_silence_target web S env id s
  serve env (unsilence_target id) s = handle_unsilence_target web S env id s
  serve env (list_alerts target_id status limit offset) s =
      (s, handle_list_alerts web S env target_id status limit offset s)
  serve env (get_alert id) s = (s, handle_get_alert web S env id s)
  serve env (ack_alert id) s = handle_ack_alert web S id s
  serve env list_probes s = (s, handle_list_probes web S env s)
