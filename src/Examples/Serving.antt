-- ===== src/Examples/Serving.antt =====
-- The theorem about the handler of cmd/conmon/server.go at a concrete server.
use gi_con_mon.Storage.Json.{stored_config, stored_window}
use gi_con_mon.Storage.Sqlite.Store.{sqlite}
use gi_con_mon.Storage.Sqlite.Targets.{get_target}
use gi_con_mon.Fsm.Runs.Evidence.{cfg-run_all}
use gi_con_mon.Fsm.Process.Guards.{up_live}
use gi_con_mon.Cmd.Handler.Outage.{OutageOut, outage_sent_out}
use gi_con_mon.Fsm.Process.{new_fsm}
use gi_con_mon.Fsm.Machine.{default_config}
use gi_con_mon.Fsm.Derive.{down_threshold_of, override}
use gi_con_mon.Api.Server.Requests.{create_target}
use gi_con_mon.Examples.Requests.{frame, at}
use gi_con_mon.Cmd.Service.Recorded.{happen_all, Occurrence, happen_all-Finds, requested, resulted}
use gi_con_mon.Storage.{ok}
use gi_con_mon.Examples.Storing.{store, store-IsStore, nothing_stored}
use gi_con_mon.Storage.Store.{saved_target, stamp_target, saved_event}
use gi_con_mon.Common.{
  String, ◌⊎◌, refl, arith, ℕ, false, eq_iff, none, ◌≡◌, List, Option, some, ◌∷◌, [], increment,
  pos, ap, lookup,
}
use gi_con_mon.Model.{Target, ProbeResult, is_active, default_target}
use gi_con_mon.Alerter.Engine.{new_engine}
use gi_con_mon.Api.Hub.{new_hub, WsMessage}
use gi_con_mon.Cmd.Handler.{Server, handle, Call}
use gi_con_mon.Cmd.Handler.Together.{Silently, Openly, handle-all_or_nothing}
use gi_con_mon.Examples.Samples.{milli, web, result, formats, reading, outage, config}
use gi_con_mon.Examples.Machine.{on_the_brink, two_failures, entry, entry-known}
use gi_con_mon.Examples.Engine.{engine}

-- A page gets the new status as its message.
abbrev encode : WsMessage ℕ → String
encode msg = msg.to

-- The target is stored, and found again.
abbrev stored : store.State
stored = (store.save_target none 1_000_000_000 web nothing_stored).0

abbrev stored_web : Target ℕ
stored_web =
    saved_target (store.get_target none "web" nothing_stored) (stamp_target 1_000_000_000 web)

finds_web : store.get_target none "web" stored ≡ ok stored_web
finds_web = store-IsStore.get_target-save_target 1_000_000_000 web "web" nothing_stored

abbrev server : Server store String
server = record { fsm = on_the_brink; store = stored; engine = engine; hub = new_hub }

abbrev call : Call
call = record {
  now = 4_000_000_000;
  new_id = "4";
  readings = λ i. reading 4_000_000_000 "1";
  look_fault = none;
  save_fault = none;
  engine_fault = none;
}

abbrev third_failure : ProbeResult ℕ
third_failure = result 4_000_000_000 false

handle-all_or_nothing_example :
    Silently store store-IsStore formats encode
      (λ t. "t")
      call
      third_failure
      server
      stored_web
      (handle store formats encode (λ t. "t") call third_failure server)
    ⊎ Openly store store-IsStore formats encode
        (λ t. "t")
        call
        third_failure
        server
        stored_web
        (handle store formats encode (λ t. "t") call third_failure server)
unfolding new_engine
handle-all_or_nothing_example =
    handle-all_or_nothing store store-IsStore formats encode (λ t. "t") call third_failure server
      stored_web refl refl refl finds_web (ground (arith, eq_iff "outage" "again"))

-- An event is recorded, then another target is created over the API and a failure is handed on.
abbrev recorded : Server store String
recorded = record server { store = (store.save_event none outage stored).0 }

found_again :
    store.get_event none "event-1" recorded.store
    ≡ ok (saved_event (store.get_event none "event-1" stored) outage)
found_again = store-IsStore.get_event-save_event outage "event-1" stored

abbrev occurrences : List (Occurrence ℕ (Option String))
occurrences = requested (at 7) (create_target (some "web")) ∷ resulted call third_failure ∷ []

happen_all-Finds_example :
    store.get_event none "event-1"
      (happen_all store formats encode (λ t. "t") frame occurrences recorded).store
    ≡ ok (saved_event (store.get_event none "event-1" stored) outage)
happen_all-Finds_example =
    happen_all-Finds store store-IsStore formats encode (λ t. "t") frame "event-1"
      (saved_event (store.get_event none "event-1" stored) outage) occurrences recorded found_again

limit_is : down_threshold_of on_the_brink.cfg stored_web ≡ pos 3
unfolding down_threshold_of override new_fsm default_config default_target sqlite get_target lookup
    stamp_target stored_config
limit_is =
    ap (λ c. down_threshold_of c stored_web) (cfg-run_all config two_failures (new_fsm config) refl)

outage_sent_out_example :
    OutageOut store store-IsStore formats encode
      (λ t. "t")
      call
      third_failure
      server
      stored_web
      entry
unfolding new_engine is_active default_target increment sqlite get_target lookup stamp_target
    stored_window
outage_sent_out_example =
    outage_sent_out store store-IsStore formats encode (λ t. "t") call third_failure server
      stored_web entry refl refl refl finds_web (ground (arith, eq_iff "outage" "again"))
      entry-known up_live refl refl (ground (arith, limit_is))
