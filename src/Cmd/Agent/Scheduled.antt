-- ===== src/Cmd/Agent/Scheduled.antt =====
-- What the agent of cmd/conmon/probe.go probes.
use gi_con_mon.Config.{MonitorSpec}
use gi_con_mon.Common.{
  str_eq, ◌≡◌, Bool, false, ◌||◌, arith, [], refl, lookup, All, inl, ◌⊎◌, ◌≤◌, inr, ◌∙◌, Bool-cases,
  String, List, ◌∷◌,
}
use gi_con_mon.Probe.Scheduler.Inner.{targets-inner, IsInner}
use gi_con_mon.Model.{FloatOps}
use gi_con_mon.Probe.Scheduler.{new_scheduler, Scheduler, add}
use gi_con_mon.Probe.Scheduler.Alive.{step_all, Step, IsAlive, add-IsAlive, step_all-IsAlive}
use gi_con_mon.Probe.Scheduler.Lives.{is_registered, lives}
use gi_con_mon.Config
use gi_con_mon.Cmd.Agent.{schedule_all, begun_agent, agent_id_of}
use gi_con_mon.Cmd.Targets.{spec_to_target_from_probe, id_of}
use gi_con_mon.Cmd.Startup.Scheduled.{is_registered-add}

module _ {F : Type 0} ⦃fl : FloatOps F⦄ where
  -- One of the monitors has the identifier.
  abbrev pub is_monitored : String → List (MonitorSpec F) → Bool
  is_monitored id [] = false
  is_monitored id (spec ∷ specs) = str_eq (id_of spec) id || is_monitored id specs

  is_registered-schedule_all :
      (id : String) (specs : List (MonitorSpec F)) (s : Scheduler F)
      → is_registered id (schedule_all specs s) ≡ (is_monitored id specs || is_registered id s)
  unfolding schedule_all spec_to_target_from_probe
  is_registered-schedule_all id [] s = refl
  is_registered-schedule_all id (spec ∷ specs) s = ground (
    arith,
    is_registered-schedule_all id specs (add (spec_to_target_from_probe spec) s),
    is_registered-add (spec_to_target_from_probe spec) id s,
  )

  schedule_all-IsAlive :
      (id : String) (specs : List (MonitorSpec F)) (s : Scheduler F)
      → IsAlive id s
      → IsAlive id (schedule_all specs s)
  unfolding schedule_all
  schedule_all-IsAlive id [] s h = h
  schedule_all-IsAlive id (spec ∷ specs) s h =
      schedule_all-IsAlive id specs (add (spec_to_target_from_probe spec) s)
        (add-IsAlive id (spec_to_target_from_probe spec) s h)

  begun_registered :
      (id : String) (cfg : Config.Config F)
      → is_registered id (begun_agent cfg) ≡ is_monitored id cfg.monitors
  unfolding begun_agent is_registered lookup new_scheduler
  begun_registered id cfg = ground (
    arith,
    is_registered-schedule_all id cfg.monitors
        (new_scheduler cfg.probe.concurrency (agent_id_of cfg.probe.id)),
  )

  begun-IsAlive : (id : String) (cfg : Config.Config F) → IsAlive id (begun_agent cfg)
  unfolding begun_agent new_scheduler is_registered lookup
  begun-IsAlive id cfg =
      schedule_all-IsAlive id cfg.monitors
        (new_scheduler cfg.probe.concurrency (agent_id_of cfg.probe.id)) (λ registered. cc)

  -- The agent probes the monitors of its configuration, and nothing else, until it is stopped: whatever
  -- timers fire and runs end once it has begun, in any order and with any results, a target is
  -- scheduled exactly if a monitor has its identifier, given or made of its name, and then it has a
  -- timer that may fire or a run that has not ended.
  pub agent_goes_on :
      (id : String) (cfg : Config.Config F) (cs : List (Step F))
      → All IsInner cs
      → (is_registered id (step_all cs (begun_agent cfg)) ≡ is_monitored id cfg.monitors)
        × ((is_monitored id cfg.monitors ≡ false) ⊎ (1 ≤ lives id (step_all cs (begun_agent cfg))))
  agent_goes_on id cfg cs inner =
      let registered : is_registered id (step_all cs (begun_agent cfg))
          ≡ is_monitored id cfg.monitors =
        unfold is_registered in
        rw (targets-inner cs (begun_agent cfg) inner) (begun_registered id cfg) in
      (
        registered,
        elim (Bool-cases (is_monitored id cfg.monitors)) [
          | inl monitored ↦ inr (
              step_all-IsAlive id cs (begun_agent cfg) (begun-IsAlive id cfg)
                (registered ∙ monitored))
          | inr other ↦ inl other
        ],
      )
