-- ===== src/Api/Server/Reading.antt =====
-- internal/api/server.go: the handlers that only read.
pub mod Summary
use gi_con_mon.Fsm.Machine.{Fsm}
use gi_con_mon.Model.{Status, FloatOps, TargetState, status_eq, any_status, Target}
use gi_con_mon.Common.{
  none, some, String, List, ℕ, ◌∷◌, [], if◌then◌else◌, pos, ◌+◌, str_eq, length, Option,
}
use gi_con_mon.Storage.{ok, err, Result}
use gi_con_mon.Storage.Store.{Store}
use gi_con_mon.Fsm.Process.{get_state, all_states}
use gi_con_mon.Api.Server.Requests.{
  Request, Web, api_error, Env, int_query, Response, Body, Server, message, alert_page, ok_response,
  event_page, nodes_body, target_page, alert_body, target_and_state, summary, state_body,
}

-- `summary[st.Status]++`
unfoldable pub count_status : Status → List (Status × ℕ) → List (Status × ℕ)
count_status st [] = (st, 1) ∷ []
count_status st ((key, n) ∷ m) =
    if status_eq key st then (key, n + 1) ∷ m else (key, n) ∷ count_status st m

-- The loop of `handleGlobalStatus`.
unfoldable pub summarize :
    {F : Type 0} → List (TargetState F) → List (Status × ℕ) → List (Status × ℕ)
summarize [] m = m
summarize (s ∷ states) m = summarize states (count_status s.status m)

module _ {F Raw : Type 0} ⦃fl : FloatOps F⦄ (web : Web F Raw) (S : Store F) where
  -- The answer to what the storage returns for a list.
  unfoldable pub answer : {A : Type 0} → (A → Body F) → Result A → Response F
  unfolding api_error
  answer body (ok a) = ok_response (body a)
  answer body (err e) = api_error 500 "STORAGE_ERROR" (web.error_text e)

  -- `handleGlobalStatus`
  unfoldable pub handle_global_status : Env → Server S → Response F
  unfolding summarize
  handle_global_status env s =
      ok_response (summary (length (all_states s.fsm)) (summarize (all_states s.fsm) []) env.now)

  -- `handleListTargets`
  unfoldable pub handle_list_targets :
      Env → String → String → String → String → Server S → Response F
  unfolding answer int_query
  handle_list_targets env protocol search limit offset s = answer target_page (
      S.list_targets env.fault env.second_fault
        (record {
          tags = [];
          statuses = [];
          protocol = protocol;
          search = search;
          limit = int_query web.scan_int limit (pos 50);
          offset = int_query web.scan_int offset (pos 0);
        })
        s.store)

  -- The answer to what `GetTarget` returns.
  abbrev pub found_answer : Fsm F → Result (Target F) → Response F
  found_answer fsm (err e) = api_error 404 "NOT_FOUND" "target not found"
  found_answer fsm (ok t) = ok_response (target_and_state t (get_state t.id fsm))

  -- `handleGetTarget`
  unfoldable pub handle_get_target : Env → String → Server S → Response F
  handle_get_target env id s = found_answer s.fsm (S.get_target env.fault id s.store)

  -- The answer to what `GetState` returns.
  abbrev pub state_answer : Option (TargetState F) → Response F
  state_answer none = api_error 404 "NOT_FOUND" "target state not found"
  state_answer (some state) = ok_response (state_body state)

  -- `handleTargetStatus`
  unfoldable pub handle_target_status : String → Server S → Response F
  handle_target_status id s = state_answer (get_state id s.fsm)

  -- `handleTargetEvents`
  unfoldable pub handle_target_events : Env → String → String → String → Server S → Response F
  unfolding answer int_query
  handle_target_events env id limit offset s = answer event_page (
      S.list_events env.fault env.second_fault
        (record {
          target_id = id;
          since = 0;
          until = 0;
          types = [];
          limit = int_query web.scan_int limit (pos 50);
          offset = int_query web.scan_int offset (pos 0);
        })
        s.store)

  -- `handleProbeNow`, which only answers.
  unfoldable pub handle_probe_now : Response F
  handle_probe_now = record { code = 202; body = message "probe scheduled" }

  -- `handleListAlerts`
  unfoldable pub handle_list_alerts :
      Env → String → String → String → String → Server S → Response F
  unfolding answer int_query
  handle_list_alerts env target_id status limit offset s = answer alert_page (
      S.list_alerts env.fault env.second_fault
        (record {
          target_id = target_id;
          status = if str_eq status "" then any_status else web.alert_status status;
          severity = "";
          limit = int_query web.scan_int limit (pos 50);
          offset = int_query web.scan_int offset (pos 0);
        })
        s.store)

  -- `handleGetAlert`
  unfoldable pub handle_get_alert : Env → String → Server S → Response F
  unfolding api_error
  handle_get_alert env id s = elim (S.get_alert env.fault id s.store) [
    | err e ↦ api_error 404 "NOT_FOUND" "alert not found"
    | ok a ↦ ok_response (alert_body a)
  ]

  -- `handleListProbes`
  unfoldable pub handle_list_probes : Env → Server S → Response F
  unfolding answer
  handle_list_probes env s = answer nodes_body (S.list_probe_nodes env.fault s.store)
