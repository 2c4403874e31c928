-- ===== src/Examples/Running.antt =====
-- The commands of cmd/conmon as a whole, at settings held in memory, a router that is the list of its routes
-- and a database that is the list of the statements that it ran.
use gi_con_mon.Probe.Scheduler.{stop}
use gi_con_mon.Api.Server.Requests.{error_body}
use gi_con_mon.Probe.Scheduler.Alive.{step_all, fired}
use gi_con_mon.Probe.Scheduler.Lives.{is_registered, lives}
use gi_con_mon.Common.{
  String, ap, none, List, ℕ, [], ◌≡◌, Bool, if◌then◌else◌, false, ◌∷◌, some, true, arith, str_eq,
  ◌⊎◌, refl, eq_iff, ◌≤◌, ◌&&◌, ◌||◌, sym, some_inj,
}
use gi_con_mon.Config.Load.{Viper, parsed, load}
use gi_con_mon.Api.Server.Routes.{Router, IsRouter, Route, no_route, serve_ui, answer}
use gi_con_mon.Cmd.Service.{Opened, opened, Starting, run_server}
use gi_con_mon.Cmd.Service.Refused.{early_end, run_server-Refused}
use gi_con_mon.Cmd.Agent.{begun_agent, run_probe, log_result, stopped}
use gi_con_mon.Cmd.Agent.Scheduled.{is_monitored, agent_goes_on}
use gi_con_mon.Storage.Sqlite.Opening.{
  Driver, connected, migrate, run_statements, open_database, store_ready,
}
use gi_con_mon.Storage.Sqlite.Opening.Again.{IsDriver, migrate-migrate}
use gi_con_mon.Examples.Samples.{milli, result}
use gi_con_mon.Examples.Commands.{settings}
use gi_con_mon.Examples.Storing.{store, nothing_stored}

-- Settings that are read as they are, whatever is asked for.
abbrev viper : Viper ℕ
viper = record {
  Settings = List String;
  new_settings = [];
  set_default = λ key value s. key ∷ s;
  set_config_file = λ path s. s;
  set_config_name = λ name s. s;
  set_config_type = λ type s. s;
  add_config_path = λ path s. s;
  set_env_prefix = λ prefix s. s;
  replace_in_env_keys = λ old new s. s;
  automatic_env = λ s. s;
  read_in_config = λ s. (s, none);
  all_keys = λ s. s;
  get_string = λ key s. "";
  set = λ key value s. s;
  unmarshal = λ s. parsed settings;
  expand_env = λ text. text;
}

registers : String → String → List Route → Bool
registers method path [] = false
registers method path (r ∷ rs) =
    str_eq r.method method && str_eq r.path path || registers method path rs

abbrev router : Router
router = record {
  State = List Route;
  empty = [];
  handle = λ r rs. if registers r.method r.path rs then none else some (r ∷ rs);
}

-- What is registered stands in front.
registered_first :
    (taken : Bool) (r : Route) (rs rs' : List Route)
    → (if taken then none else some (r ∷ rs)) ≡ some rs'
    → r ∷ rs ≡ rs'
registered_first true r rs rs' e = cc
registered_first false r rs rs' e = some_inj e

registers-handle :
    (r : Route) (rs rs' : List Route) (method path : String)
    → router.handle r rs ≡ some rs'
    → registers method path rs'
      ≡ (str_eq r.method method && str_eq r.path path || registers method path rs)
unfolding registers
registers-handle r rs rs' method path e =
    rw (sym (registered_first (registers r.method r.path rs) r rs rs' e)) refl

router-IsRouter : IsRouter router
router-IsRouter = record {
  has = registers;
  handle-taken = λ r rs taken. rw taken refl;
  has-handle = registers-handle;
}

abbrev starting : Starting
starting = record {
  faults = λ i. none;
  times = λ i. 1_000_000_000;
  count_fault = none;
  data_fault = none;
}

abbrev opens : String → Opened store
opens path = opened nothing_stored

run_server-Refused_example :
    run_server {M = String} viper store opens router (λ s. s) starting "conmon.yaml"
    ≡ early_end viper store opens router router-IsRouter
        (λ s. s)
        starting
        (load viper "conmon.yaml")
run_server-Refused_example =
    run_server-Refused {M = String} viper store opens router router-IsRouter (λ s. s) starting
      "conmon.yaml"

agent_goes_on_example :
    (is_registered "web" (step_all (fired "web" 0 ∷ []) (begun_agent settings))
      ≡ is_monitored "web" settings.monitors)
    × ((is_monitored "web" settings.monitors ≡ false)
        ⊎ (1 ≤ lives "web" (step_all (fired "web" 0 ∷ []) (begun_agent settings))))
agent_goes_on_example = agent_goes_on "web" settings (fired "web" 0 ∷ []) (tt, tt)

ran : String → List String → Bool
ran stmt [] = false
ran stmt (s ∷ ss) = str_eq s stmt || ran stmt ss

abbrev driver : Driver
driver = record {
  Db = List String;
  open_path = λ path. connected [];
  set_max_open = λ n db. db;
  exec = λ stmt db. (if ran stmt db then db else stmt ∷ db, none);
  close = λ db. db;
  quoted = λ s. s;
}

ran_self :
    (stmt : String) (db : List String) → ran stmt (if ran stmt db then db else stmt ∷ db) ≡ true
unfolding ran
ran_self stmt db = ground (arith, eq_iff stmt stmt)

ran_other :
    (stmt other : String) (db : List String)
    → ran stmt db ≡ true
    → ran stmt (if ran other db then db else other ∷ db) ≡ true
unfolding ran
ran_other stmt other db there = ground arith

ran_again :
    (stmt : String) (db : List String)
    → ran stmt db ≡ true
    → (if ran stmt db then db else stmt ∷ db) ≡ db
ran_again stmt db there = rw there refl

driver-IsDriver : IsDriver driver
driver-IsDriver = record {
  has = ran;
  has-exec = λ stmt db guarded fine. ran_self stmt db;
  has-exec_other = λ stmt other db guarded there. ran_other stmt other db there;
  exec-has = λ stmt db guarded there. ap (λ (d : List String). (d, none)) (ran_again stmt db there);
}

migrate-migrate_example : migrate driver (migrate driver []).0 ≡ ((migrate driver []).0, none)
unfolding run_statements migrate
migrate-migrate_example = migrate-migrate driver driver-IsDriver [] refl

-- A page of the web application, a misspelt path of the API, and what the agent writes of a failure.
test_fallback_page : no_route {F = ℕ} (λ path. false) "/targets" ≡ serve_ui "/"
unfolding no_route
test_fallback_page = refl

test_fallback_api :
    no_route {F = ℕ} (λ path. false) "/api/v2"
    ≡ answer (record { code = 404; body = error_body "NOT_FOUND" "endpoint not found" })
unfolding no_route
test_fallback_api = refl

test_log : (log_result (λ latency. "12.0") (result 5 false)).status ≡ "✗"
unfolding log_result
test_log = refl

test_open : open_database driver "conmon.db" ≡ store_ready (migrate driver []).0
unfolding open_database
test_open = refl

test_probe : run_probe viper (λ s. s) "conmon.yaml" ≡ stopped (stop (begun_agent settings))
unfolding run_probe load
test_probe = refl
