-- ===== src/Api/Server/Serve/Errors.antt =====
-- A request that is answered with an error changes nothing.
use gi_con_mon.Storage.{Fault, Result, err, ok}
use gi_con_mon.Api.Server.Serve.{serve}
use gi_con_mon.Model.{FloatOps, Target}
use gi_con_mon.Common.{
  ◌≡◌, refl, ◌≤◌, ℕ, ◌<◌, some, none, arith, subst, ap, sym, Option-cases, lookup, inl, inr, String,
}
use gi_con_mon.Alerter.Lifecycle
use gi_con_mon.Storage.Store.{Store, IsStore}
use gi_con_mon.Api.Server.Requests.{
  Web, Env, Server, Response, Request, get_status, list_targets, create_target, get_target,
  update_target, delete_target, target_status, target_events, probe_now, silence_target,
  unsilence_target, list_alerts, get_alert, ack_alert, list_probes, api_error, Bound, unbound,
  bound,
}
use gi_con_mon.Api.Server.Targets.{
  handle_create_target, handle_delete_target, save_and_answer, after_delete, saved_answer,
  update_found, update_bound, create_bound, handle_unsilence_target, handle_update_target,
  handle_silence_target, complete, unset_target, handle_ack_alert,
}

module _ {F Raw : Type 0} ⦃fl : FloatOps F⦄ (web : Web F Raw) (S : Store F)
    (promises : IsStore S) where
  -- Where the answer is an error, the server is as it was.
  abbrev pub SafeFrom : Server S → Server S × Response F → Type 0
  SafeFrom s out = 400 ≤ out.1.code → out.0 ≡ s

  save_and_answer-SafeFrom :
      (env : Env) (code : ℕ) (t : Target F) (s : Server S)
      → code < 400
      → SafeFrom s (save_and_answer web S env code t s)
  unfolding save_and_answer api_error
  save_and_answer-SafeFrom env code t s below failed =
      ap {A = S.State} (λ store. record s { store = store }) (unchanged env.fault failed)
    where
      unchanged :
          (fault : Fault)
          → 400
            ≤ (saved_answer web S code
                (S.save_target fault env.now t s.store).2
                (S.save_target fault env.now t s.store).1).code
          → (S.save_target fault env.now t s.store).0 ≡ s.store
      unchanged none h = absurd (
          omega (
            arith,
            below,
            subst
                (λ e.
                  400 ≤ (saved_answer web S code (S.save_target none env.now t s.store).2 e).code)
                (promises.save_target-outcome none env.now t s.store).0 h,
          ))
      unchanged (some text) h = promises.failed_save text env.now t s.store

  delete_target-SafeFrom :
      (env : Env) (id : String) (s : Server S) → SafeFrom s (handle_delete_target web S env id s)
  unfolding handle_delete_target api_error
  delete_target-SafeFrom env id s failed = unchanged env.fault failed
    where
      left : Fault → Server S
      left fault = record s { store = (S.delete_target fault id s.store).0 }

      unchanged :
          (fault : Fault)
          → SafeFrom s (after_delete web S id (left fault) (S.delete_target fault id s.store).1)
      unchanged none h = absurd (
          omega (
            arith,
            subst (λ e. 400 ≤ (after_delete web S id (left none) e).1.code)
                (promises.delete_target-outcome none id s.store) h,
          ))
      unchanged (some text) h =
          subst (λ e. (after_delete web S id (left (some text)) e).0 ≡ s)
            (sym (promises.delete_target-outcome (some text) id s.store))
            (ap {A = S.State} (λ store. record s { store = store })
              (promises.failed_delete text id s.store))

  create_bound-SafeFrom :
      (env : Env) (s : Server S) (b : Bound F) → SafeFrom s (create_bound web S env s b)
  create_bound-SafeFrom env s (unbound text) h = refl
  create_bound-SafeFrom env s (bound t) h =
      save_and_answer-SafeFrom env 201 (complete env.new_id t) s (omega arith) h

  update_bound-SafeFrom :
      (env : Env) (id : String) (s : Server S) (b : Bound F)
      → SafeFrom s (update_bound web S env id s b)
  update_bound-SafeFrom env id s (unbound text) h = refl
  update_bound-SafeFrom env id s (bound t) h =
      save_and_answer-SafeFrom env 200 (record t { id = id }) s (omega arith) h

  update_found-SafeFrom :
      (env : Env) (id : String) (raw : Raw) (s : Server S) (r : Result (Target F))
      → SafeFrom s (update_found web S env id raw s r)
  update_found-SafeFrom env id raw s (err e) h = refl
  update_found-SafeFrom env id raw s (ok existing) h =
      update_bound-SafeFrom env id s (web.bind raw existing) h

  ack_alert-SafeFrom : (id : String) (s : Server S) → SafeFrom s (handle_ack_alert web S id s)
  unfolding handle_ack_alert Lifecycle.ack_alert api_error
  ack_alert-SafeFrom id s = elim (Option-cases (lookup id s.alerter.alerts)) [
    | inl missing ↦ rw (missing, Lifecycle.ack_alert) (λ h. refl)
    | inr (a, found) ↦ rw (found, Lifecycle.ack_alert) (λ h. absurd (omega (arith, h)))
  ]

  -- A request of any kind that is answered with a status of 400 or more leaves the storage, the
  -- state machine and the alert engine as they were.
  pub serve-SafeFrom :
      (env : Env) (request : Request Raw) (s : Server S)
      → 400 ≤ (serve web S env request s).1.code
      → (serve web S env request s).0 ≡ s
  unfolding serve handle_create_target handle_update_target handle_silence_target
      handle_unsilence_target
  serve-SafeFrom env get_status s h = refl
  serve-SafeFrom env (list_targets protocol search limit offset) s h = refl
  serve-SafeFrom env (create_target raw) s h =
      create_bound-SafeFrom env s (web.bind raw unset_target) h
  serve-SafeFrom env (get_target id) s h = refl
  serve-SafeFrom env (update_target id raw) s h =
      update_found-SafeFrom env id raw s (S.get_target env.second_fault id s.store) h
  serve-SafeFrom env (delete_target id) s h = delete_target-SafeFrom env id s h
  serve-SafeFrom env (target_status id) s h = refl
  serve-SafeFrom env (target_events id limit offset) s h = refl
  serve-SafeFrom env (probe_now id) s h = refl
  serve-SafeFrom env (silence_target id) s h = absurd (omega (arith, h))
  serve-SafeFrom env (unsilence_target id) s h = absurd (omega (arith, h))
  serve-SafeFrom env (list_alerts target_id status limit offset) s h = refl
  serve-SafeFrom env (get_alert id) s h = refl
  serve-SafeFrom env (ack_alert id) s h = ack_alert-SafeFrom id s h
  serve-SafeFrom env list_probes s h = refl
