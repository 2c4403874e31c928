-- ===== src/Probe/Registry.antt =====
-- internal/probe/probe.go: `Registry`, the probers by the name of their protocol.
use gi_con_mon.Common.{String, Option, Assoc, insert, lookup}
use gi_con_mon.Model.{Target, ProbeResult}

-- What `Probe` returns: a result, or an error with its text.
pub data Answer (F : Type 0) : Type 0 where
  answered : ProbeResult F → Answer F
  failed : String → Answer F

-- `Prober`, without `Validate`, which nothing calls.
pub record Prober (F : Type 0) : Type 0 where
  pub protocol : String
  pub probe : Target F → Answer F

-- `Registry`
abbrev pub Registry : Type 0 → Type 0
Registry F = Assoc (Prober F)

module _ {F : Type 0} where
  -- `Register`
  unfoldable pub register : Prober F → Registry F → Registry F
  register p r = insert p.protocol p r

  -- `Get`
  unfoldable pub get : String → Registry F → Option (Prober F)
  get protocol r = lookup protocol r
