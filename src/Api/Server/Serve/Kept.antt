-- ===== src/Api/Server/Serve/Kept.antt =====
-- That the requests of the API never change the history of events and alerts in the storage.
use gi_con_mon.Api.Server.Serve.{serve}
use gi_con_mon.Model.{FloatOps, Target}
use gi_con_mon.Common.{String, ◌≡◌, refl, none, some, Option, List, [], ◌∷◌, ◌∙◌, ℕ}
use gi_con_mon.Storage.{Result, ok, err, StoreError}
use gi_con_mon.Storage.Store.{Store, IsStore}
use gi_con_mon.Api.Server.Requests.{
  Web, Env, Server, Request, create_target, update_target, delete_target, Bound, unbound, bound,
}
use gi_con_mon.Api.Server.Targets.{
  handle_create_target, handle_delete_target, save_and_answer, after_delete, update_found,
  update_bound, create_bound, handle_unsilence_target, handle_update_target, handle_silence_target,
  complete, unset_target, handle_ack_alert,
}

module _ {F Raw : Type 0} ⦃fl : FloatOps F⦄ (web : Web F Raw) (S : Store F) where
  -- A run of requests, each with what it meets.
  unfoldable pub serve_all : List (Env × Request Raw) → Server S → Server S
  serve_all [] s = s
  serve_all ((env, request) ∷ requests) s = serve_all requests (serve web S env request s).0

  -- Every event and every alert that the storage finds, and every one that it does not, is as before.
  abbrev pub KeepsHistory : Server S → Server S → Type 0
  KeepsHistory s after =
      ((j : String) → S.get_event none j after.store ≡ S.get_event none j s.store)
      × ((j : String) → S.get_alert none j after.store ≡ S.get_alert none j s.store)

module _ {F Raw : Type 0} ⦃fl : FloatOps F⦄ (web : Web F Raw) (S : Store F)
    (promises : IsStore S) where
  save_and_answer-KeepsHistory :
      (env : Env) (code : ℕ) (t : Target F) (s : Server S)
      → KeepsHistory web S s (save_and_answer web S env code t s).0
  unfolding save_and_answer
  save_and_answer-KeepsHistory env code t s = (
    λ j. promises.get_event-save_target env.fault env.now t j s.store,
    λ j. promises.get_alert-save_target env.fault env.now t j s.store,
  )

  create_bound-KeepsHistory :
      (env : Env) (s : Server S) (b : Bound F) → KeepsHistory web S s (create_bound web S env s b).0
  create_bound-KeepsHistory env s (unbound text) = (λ j. refl, λ j. refl)
  create_bound-KeepsHistory env s (bound t) =
      save_and_answer-KeepsHistory env 201 (complete env.new_id t) s

  update_found-KeepsHistory :
      (env : Env) (id : String) (raw : Raw) (s : Server S) (r : Result (Target F))
      → KeepsHistory web S s (update_found web S env id raw s r).0
  update_found-KeepsHistory env id raw s (err e) = (λ j. refl, λ j. refl)
  update_found-KeepsHistory env id raw s (ok existing) = read (web.bind raw existing)
    where
      read : (b : Bound F) → KeepsHistory web S s (update_bound web S env id s b).0
      read (unbound text) = (λ j. refl, λ j. refl)
      read (bound t) = save_and_answer-KeepsHistory env 200 (record t { id = id }) s

  after_delete-KeepsHistory :
      (id : String) (s : Server S) (e : Option StoreError)
      → KeepsHistory web S s (after_delete web S id s e).0
  after_delete-KeepsHistory id s none = (λ j. refl, λ j. refl)
  after_delete-KeepsHistory id s (some e) = (λ j. refl, λ j. refl)

  delete_target-KeepsHistory :
      (env : Env) (id : String) (s : Server S)
      → KeepsHistory web S s (handle_delete_target web S env id s).0
  unfolding handle_delete_target
  delete_target-KeepsHistory env id s =
      let out = S.delete_target env.fault id s.store in
      let (events, alerts) = after_delete-KeepsHistory id (record s { store = out.0 }) out.1 in
      (
        λ j. events j ∙ promises.get_event-delete_target env.fault id j s.store,
        λ j. alerts j ∙ promises.get_alert-delete_target env.fault id j s.store,
      )

  pub serve-KeepsHistory :
      (env : Env) (request : Request Raw) (s : Server S)
      → KeepsHistory web S s (serve web S env request s).0
  unfolding serve handle_create_target handle_update_target handle_silence_target
      handle_unsilence_target handle_ack_alert
  serve-KeepsHistory env (create_target raw) s =
      create_bound-KeepsHistory env s (web.bind raw unset_target)
  serve-KeepsHistory env (update_target id raw) s =
      update_found-KeepsHistory env id raw s (S.get_target env.second_fault id s.store)
  serve-KeepsHistory env (delete_target id) s = delete_target-KeepsHistory env id s
  serve-KeepsHistory env other s = (λ j. refl, λ j. refl)

  -- The API never alters the history: through any run of requests, with any faults and bodies, every
  -- event and alert in the storage is found as before, and none appears; so the events and alerts of a
  -- target that is deleted stay.
  pub serve_all-KeepsHistory :
      (requests : List (Env × Request Raw)) (s : Server S)
      → KeepsHistory web S s (serve_all web S requests s)
  unfolding serve_all
  serve_all-KeepsHistory [] s = (λ j. refl, λ j. refl)
  serve_all-KeepsHistory ((env, request) ∷ requests) s =
      let (events, alerts) = serve-KeepsHistory env request s in
      let (later_events, later_alerts) =
        serve_all-KeepsHistory requests (serve web S env request s).0 in
      (λ j. later_events j ∙ events j, λ j. later_alerts j ∙ alerts j)
