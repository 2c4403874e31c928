-- ===== src/Cmd/Service.antt =====
-- cmd/conmon/server.go: `runServer` as a whole: the configuration, the storage, the parts and their wiring,
-- the start, the serving and the end. Viper, the opening of the storage, gin's router, and what goes on
-- while the server serves are arguments.
pub mod Refused
pub mod Recorded
use gi_con_mon.Common.{none, some, List, ℕ, String, ◌∷◌, []}
use gi_con_mon.Api.Hub.{new_hub}
use gi_con_mon.Fsm.Machine.{default_config}
use gi_con_mon.Fsm.Process.{new_fsm}
use gi_con_mon.Storage.{Fault}
use gi_con_mon.Alerter.Engine.{Notifier, new_engine}
use gi_con_mon.Probe.Scheduler.{Scheduler, stop, new_scheduler}
use gi_con_mon.Model.{FloatOps, Time}
use gi_con_mon.Storage.Store.{Store}
use gi_con_mon.Api.Server.Routes.{Router, register_routes}
use gi_con_mon.Cmd.Handler.{Server}
use gi_con_mon.Cmd.Startup.{start_up, node_id_of}
use gi_con_mon.Cmd.Alerting.{build_rules, build_channels}
use gi_con_mon.Config
use gi_con_mon.Config.Load.{Viper, Loaded, loaded, load}

-- What `sqlite.Open` comes to.
pub data Opened {F : Type 0} (S : Store F) : Type 0 where
  opened : S.State → Opened S
  not_opened : String → Opened S

-- The parts of the server that serves, with its scheduler.
pub record Service {F : Type 0} (S : Store F) (M : Type 0) : Type 0 where
  pub server : Server S M
  pub scheduler : Scheduler F

-- How `runServer` ends: with the error of the configuration or of the storage, in a panic, or behind its
-- serving.
pub data Ended {F : Type 0} (S : Store F) (M : Type 0) : Type 0 where
  load_failed : Loaded F → Ended S M
  open_failed : String → Ended S M
  panicked : Ended S M
  stopped : Service S M → Ended S M

-- The three notifiers, by their names and types.
abbrev pub notifiers : List Notifier
notifiers =
    record { name = "webhook"; type = "webhook" }
    ∷ record { name = "dingtalk"; type = "dingtalk" }
    ∷ record { name = "wecom"; type = "wecom" }
    ∷ []

-- What the start meets of faults and of the clock.
pub record Starting : Type 0 where
  pub faults : ℕ → Fault
  pub times : ℕ → Time
  pub count_fault : Fault
  pub data_fault : Fault

module _ {F M : Type 0} ⦃fl : FloatOps F⦄ (v : Viper F) (S : Store F)
    (open_store : String → Opened S) (R : Router) (serving : Service S M → Service S M) where
  -- The machine, the engine, the hub and the scheduler are new.
  unfoldable pub new_service : Config.Config F → S.State → Service S M
  new_service cfg store = record {
    server = record {
      fsm = new_fsm default_config;
      store = store;
      engine =
          new_engine (build_rules cfg.alerting.rules) (build_channels cfg.alerting.channels)
            notifiers;
      hub = new_hub;
    };
    scheduler = new_scheduler cfg.probe.concurrency (node_id_of cfg.probe.id);
  }

  -- From the start of the monitors to the end.
  unfoldable pub run_service : Starting → Config.Config F → Service S M → Service S M
  run_service starting cfg service =
      let (store, scheduler) =
        start_up S starting.faults starting.times starting.count_fault starting.data_fault
          cfg.monitors service.server.store service.scheduler in
      let served =
        serving
          (record { server = record service.server { store = store }; scheduler = scheduler }) in
      record served { scheduler = stop served.scheduler }

  -- What follows `sqlite.Open`; `api.New` registers the routes.
  unfoldable pub after_open : Starting → Config.Config F → Opened S → Ended S M
  unfolding new_service run_service
  after_open starting cfg (not_opened text) = open_failed text
  after_open starting cfg (opened store) = elim (register_routes R R.empty) [
    | none ↦ panicked
    | some router ↦ stopped (run_service starting cfg (new_service cfg store))
  ]

  unfoldable pub after_load : Starting → Loaded F → Ended S M
  unfolding after_open
  after_load starting (loaded cfg) = after_open starting cfg (open_store cfg.storage.path)
  after_load starting other = load_failed other

  -- `runServer`
  unfoldable pub run_server : Starting → String → Ended S M
  unfolding after_load
  run_server starting path = after_load starting (load v path)
