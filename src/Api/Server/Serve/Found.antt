-- ===== src/Api/Server/Serve/Found.antt =====
-- What a request finds of the targets that an earlier request made, changed or deleted.
use gi_con_mon.Fsm.Process.{remove_target, get_state}
use gi_con_mon.Api.Server.Serve.{serve}
use gi_con_mon.Api.Server.Serve.Completed.{Completes, complete-Completes}
use gi_con_mon.Model.{FloatOps, Target}
use gi_con_mon.Common.{◌≡◌, refl, ℕ, none, if◌then◌else◌, str_eq, lookup-delete, String}
use gi_con_mon.Storage.{no_rows, err, Result, ok}
use gi_con_mon.Storage.Store.{Store, IsStore, saved_target, stamp_target}
use gi_con_mon.Api.Server.Requests.{
  Web, Env, Server, Response, create_target, get_target, update_target, delete_target,
  target_status, target_body, bound, no_body,
}
use gi_con_mon.Api.Server.Targets.{
  complete, save_and_answer, handle_update_target, handle_create_target, unset_target,
  handle_delete_target,
}
use gi_con_mon.Api.Server.Reading.{
  handle_get_target, handle_target_status, found_answer, state_answer,
}

module _ {F Raw : Type 0} ⦃fl : FloatOps F⦄ (web : Web F Raw) (S : Store F)
    (promises : IsStore S) where
  -- What a target is read as behind the saving of another or of itself.
  abbrev pub read_back : Target F → Server S → String → Result (Target F)
  read_back saved s j =
      if str_eq saved.id j
      then ok (saved_target (S.get_target none saved.id s.store) saved)
      else S.get_target none j s.store

  -- The saving of a target is answered with it, and a later request for any target finds what was saved
  -- last.
  abbrev pub Saves : ℕ → Target F → Env → String → Server S → Server S × Response F → Type 0
  Saves code saved later j s after =
      (after.1 ≡ record { code = code; body = target_body saved })
      × ((serve web S later (get_target j) after.0).1
          ≡ found_answer web S s.fsm (read_back saved s j))

  save_and_answer-Saves :
      (env later : Env) (j : String) (code : ℕ) (t : Target F) (s : Server S)
      → env.fault ≡ none
      → later.fault ≡ none
      → Saves code (stamp_target env.now t) later j s (save_and_answer web S env code t s)
  unfolding serve save_and_answer handle_get_target stamp_target
  save_and_answer-Saves env later j code t s sound still = (
    rw
        (
          sound,
          (promises.save_target-outcome none env.now t s.store).0,
          (promises.save_target-outcome none env.now t s.store).1,
        )
        refl,
    rw (sound, still, promises.get_target-save_target env.now t j s.store) refl,
  )

  -- Where the storage does not fail and the body is read, creating a target answers 201, whether or
  -- not its identifier is taken, with the target as it is given, but enabled and stamped, and with 30
  -- seconds, 5000 milliseconds, 3 retries, the priority "normal" and the fresh identifier where these
  -- are left open; a later request finds it, through the storage and with its state, where one that
  -- had the identifier is overwritten but for its creation, and finds every other target as before.
  pub create_target-Saves :
      (env later : Env) (j : String) (raw : Raw) (t : Target F) (s : Server S)
      → env.fault ≡ none
      → later.fault ≡ none
      → web.bind raw unset_target ≡ bound t
      → (saved : Target F) × Completes env.now env.new_id t saved
        × Saves 201 saved later j s (serve web S env (create_target raw) s)
  unfolding serve handle_create_target
  create_target-Saves env later j raw t s sound still reads = (
    stamp_target env.now (complete env.new_id t),
    complete-Completes env.now env.new_id t,
    rw reads (save_and_answer-Saves env later j 201 (complete env.new_id t) s sound still),
  )

  -- Where the storage does not fail, the target is there and the body is read over it, updating
  -- answers 200 with the target under the identifier of the path, whatever the body names; a later
  -- request finds it so, with the creation it had, and every other target as before.
  pub update_target-Saves :
      (env later : Env) (id j : String) (raw : Raw) (old t : Target F) (s : Server S)
      → env.fault ≡ none
      → later.fault ≡ none
      → S.get_target env.second_fault id s.store ≡ ok old
      → web.bind raw old ≡ bound t
      → Saves 200
          (stamp_target env.now (record t { id = id }))
          later
          j
          s
          (serve web S env (update_target id raw) s)
  unfolding serve handle_update_target
  update_target-Saves env later id j raw old t s sound still exists reads =
      rw (exists, reads)
        (save_and_answer-Saves env later j 200 (record t { id = id }) s sound still)

  -- The deletion is answered without a body, and a later request finds neither the target nor its state;
  -- every other is found as before.
  abbrev pub Deletes : String → Env → String → Server S → Server S × Response F → Type 0
  Deletes id later j s after =
      (after.1 ≡ record { code = 204; body = no_body })
      × ((serve web S later (get_target j) after.0).1
          ≡ found_answer web S (remove_target id s.fsm)
              (if str_eq id j then err no_rows else S.get_target none j s.store))
      × ((serve web S later (target_status j) after.0).1
          ≡ state_answer web S (if str_eq id j then none else get_state j s.fsm))

  -- Where the storage does not fail, deleting a target answers 204, whether it was there or not; a
  -- later request finds neither the target nor its state, and every other target and state as
  -- before.
  pub delete_target-Deletes :
      (env later : Env) (id j : String) (s : Server S)
      → env.fault ≡ none
      → later.fault ≡ none
      → Deletes id later j s (serve web S env (delete_target id) s)
  unfolding serve handle_delete_target handle_get_target handle_target_status remove_target
      get_state
  delete_target-Deletes env later id j s sound still =
      rw
        (
          sound,
          still,
          promises.delete_target-outcome none id s.store,
          promises.get_target-delete_target id j s.store,
          lookup-delete id j s.fsm.states,
        )
        (refl, refl, refl)
