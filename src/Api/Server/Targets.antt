-- ===== src/Api/Server/Targets.antt =====
-- internal/api/server.go: the handlers that change something: of targets, of their silence and of alerts.
use gi_con_mon.Alerter.Lifecycle.{alert_not_found, ack_alert, AckError}
use gi_con_mon.Model.{FloatOps, Target, default_target}
use gi_con_mon.Common.{
  String, ℤ, if◌then◌else◌, pos, str_eq, int_eqb, ℕ, [], str_append, none, true, some, false,
  Option,
}
use gi_con_mon.Storage.{ok, err, StoreError, Result}
use gi_con_mon.Storage.Store.{Store}
use gi_con_mon.Fsm.Process.{remove_target, set_silent}
use gi_con_mon.Api.Server.Requests.{
  Web, Env, api_error, Server, Response, unbound, target_body, ok_response, bound, message, no_body,
  Bound,
}

-- `var t model.Target`
abbrev pub unset_target : {F : Type 0} → ⦃fl : FloatOps F⦄ → Target F
unset_target ⦃fl⦄ = record {
  id = "";
  name = "";
  host = "";
  port = pos 0;
  protocol = "";
  interval_sec = pos 0;
  timeout_ms = pos 0;
  retries = pos 0;
  priority = "";
  tags = [];
  dependencies = [];
  probe_ids = [];
  alert_config = record {
    down_threshold = pos 0;
    recovery_threshold = pos 0;
    latency_warn_ms = pos 0;
    packet_loss_warn_pct = fl.zero;
    alert_channels = [];
    cert_warn_days = pos 0;
  };
  probe_config = [];
  hooks = none;
  maintenance = none;
  enabled = false;
  created_at = 0;
  updated_at = 0;
  created_by = "";
}

abbrev pub or_default : ℤ → ℤ → ℤ
or_default n default = if int_eqb n (pos 0) then default else n

module _ {F : Type 0} ⦃fl : FloatOps F⦄ where
  -- The defaults that `handleCreateTarget` fills in.
  unfoldable pub complete : String → Target F → Target F
  unfolding default_target
  complete new_id t =
      let def : Target F = default_target in
      record t {
        id = if str_eq t.id "" then str_append "target-" new_id else t.id;
        interval_sec = or_default t.interval_sec def.interval_sec;
        timeout_ms = or_default t.timeout_ms def.timeout_ms;
        retries = or_default t.retries def.retries;
        priority = if str_eq t.priority "" then def.priority else t.priority;
        enabled = true;
      }

  module _ {Raw : Type 0} (web : Web F Raw) (S : Store F) where
    -- The answer to what `SaveTarget` returns.
    abbrev pub saved_answer : ℕ → Target F → Option StoreError → Response F
    saved_answer code saved none = record { code = code; body = target_body saved }
    saved_answer code saved (some e) = api_error 500 "STORAGE_ERROR" (web.error_text e)

    -- `SaveTarget` and the answer of the two handlers that call it.
    unfoldable pub save_and_answer : Env → ℕ → Target F → Server S → Server S × Response F
    save_and_answer env code t s =
        let (store, error, saved) = S.save_target env.fault env.now t s.store in
        (record s { store = store }, saved_answer code saved error)

    -- What follows the binding of a body in the two handlers that have one.
    abbrev pub create_bound : Env → Server S → Bound F → Server S × Response F
    create_bound env s (unbound text) = (s, api_error 400 "INVALID_PARAMS" text)
    create_bound env s (bound t) = save_and_answer env 201 (complete env.new_id t) s

    abbrev pub update_bound : Env → String → Server S → Bound F → Server S × Response F
    update_bound env id s (unbound text) = (s, api_error 400 "INVALID_PARAMS" text)
    update_bound env id s (bound t) = save_and_answer env 200 (record t { id = id }) s

    abbrev pub update_found :
        Env → String → Raw → Server S → Result (Target F) → Server S × Response F
    update_found env id raw s (err e) = (s, api_error 404 "NOT_FOUND" "target not found")
    update_found env id raw s (ok existing) = update_bound env id s (web.bind raw existing)

    -- `handleCreateTarget`
    unfoldable pub handle_create_target : Env → Raw → Server S → Server S × Response F
    handle_create_target env raw s = create_bound env s (web.bind raw unset_target)

    -- `handleUpdateTarget`; the errors of its two calls of the storage are two.
    unfoldable pub handle_update_target : Env → String → Raw → Server S → Server S × Response F
    handle_update_target env id raw s =
        update_found env id raw s (S.get_target env.second_fault id s.store)

    -- What follows `DeleteTarget`.
    abbrev pub after_delete : String → Server S → Option StoreError → Server S × Response F
    after_delete id s (some e) = (s, api_error 500 "STORAGE_ERROR" (web.error_text e))
    after_delete id s none =
        (record s { fsm = remove_target id s.fsm }, record { code = 204; body = no_body })

    -- `handleDeleteTarget`
    unfoldable pub handle_delete_target : Env → String → Server S → Server S × Response F
    handle_delete_target env id s =
        let (store, error) = S.delete_target env.fault id s.store in
        after_delete id (record s { store = store }) error

    -- `handleSilenceTarget` and `handleUnsilenceTarget`
    unfoldable pub handle_silence_target : Env → String → Server S → Server S × Response F
    handle_silence_target env id s =
        (record s { fsm = set_silent env.now id true s.fsm }, ok_response (message "silenced"))

    unfoldable pub handle_unsilence_target : Env → String → Server S → Server S × Response F
    handle_unsilence_target env id s =
        (record s { fsm = set_silent env.now id false s.fsm }, ok_response (message "unsilenced"))

    -- The answer to what `AckAlert` returns.
    abbrev pub ack_answer : Option AckError → Response F
    ack_answer none = ok_response (message "acknowledged")
    ack_answer (some (alert_not_found id)) =
        api_error 404 "NOT_FOUND" (str_append "alert " (str_append id " not found"))

    -- `handleAckAlert`
    unfoldable pub handle_ack_alert : String → Server S → Server S × Response F
    handle_ack_alert id s =
        let (alerter, error) = ack_alert id s.alerter in
        (record s { alerter = alerter }, ack_answer error)
