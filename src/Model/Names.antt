-- ===== src/Model/Names.antt =====
-- The named string types of internal/model/model.go.
use gi_con_mon.Common.{
  String, ◌≡◌, Bool, true, false, ◌⊎◌, inl, inr, refl, ◌≢◌, arith, ℕ, ◌==◌, ◌↔◌,
}

-- `Status`. `unset` is the empty string, the zero value of a field that nothing has written.
pub data Status : Type 0 where
  unknown up down degraded flapping maintenance silent unset : Status

abbrev pub status_name : Status → String
status_name unknown = "UNKNOWN"
status_name up = "UP"
status_name down = "DOWN"
status_name degraded = "DEGRADED"
status_name flapping = "FLAPPING"
status_name maintenance = "MAINTENANCE"
status_name silent = "SILENT"
status_name unset = ""

pub Status-discrete : Discrete Status
Status-discrete = hlevel

-- A number for each spelling.
abbrev status_tag : Status → ℕ
status_tag unknown = 0
status_tag up = 1
status_tag down = 2
status_tag degraded = 3
status_tag flapping = 4
status_tag maintenance = 5
status_tag silent = 6
status_tag unset = 7

-- `a == b` on two statuses: the spellings are pairwise different.
unfoldable pub status_eq : Status → Status → Bool
status_eq a b = status_tag a == status_tag b

pub status_eq_iff : (a b : Status) → (status_eq a b ≡ true) ↔ (a ≡ b)
unfolding status_eq
status_eq_iff a b = ground arith

pub status_cases : (a b : Status) → (a ≡ b) ⊎ (a ≢ b)
status_cases a b = elim (Status-discrete a b) [ yes e ↦ inl e | no h ↦ inr h ]

pub status_eq_refl : (a : Status) → status_eq a a ≡ true
status_eq_refl a = (status_eq_iff a a).1 refl

pub status_eq-false : (a b : Status) → a ≢ b → status_eq a b ≡ false
status_eq-false a b h = ground (arith, status_eq_iff a b)

abbrev pub Protocol : Type 0
Protocol = String

abbrev pub Priority : Type 0
Priority = String

-- The protocols that have a prober, and ICMP.
abbrev pub proto_icmp : Protocol
proto_icmp = "icmp"

abbrev pub proto_tcp : Protocol
proto_tcp = "tcp"

abbrev pub proto_http : Protocol
proto_http = "http"

abbrev pub proto_https : Protocol
proto_https = "https"

abbrev pub proto_dns : Protocol
proto_dns = "dns"

abbrev pub priority_normal : Priority
priority_normal = "normal"

pub data EventType : Type 0 where
  status_changed event_degraded event_flapping event_cert_expiry event_maintenance : EventType

-- `AlertStatus`; `any_status` is the empty string, which `ListAlerts` reads as no filter.
pub data AlertStatus : Type 0 where
  firing resolved acknowledged silenced any_status : AlertStatus

abbrev pub alert_status_name : AlertStatus → String
alert_status_name firing = "firing"
alert_status_name resolved = "resolved"
alert_status_name acknowledged = "acknowledged"
alert_status_name silenced = "silenced"
alert_status_name any_status = ""

abbrev alert_status_tag : AlertStatus → ℕ
alert_status_tag firing = 0
alert_status_tag resolved = 1
alert_status_tag acknowledged = 2
alert_status_tag silenced = 3
alert_status_tag any_status = 4

unfoldable pub alert_status_eq : AlertStatus → AlertStatus → Bool
alert_status_eq a b = alert_status_tag a == alert_status_tag b

pub alert_status_eq_iff : (a b : AlertStatus) → (alert_status_eq a b ≡ true) ↔ (a ≡ b)
unfolding alert_status_eq
alert_status_eq_iff a b = ground arith

-- A rule's severity comes from the configuration and may be any text.
abbrev pub Severity : Type 0
Severity = String

abbrev pub severity_error : Severity
severity_error = "error"

abbrev pub severity_warn : Severity
severity_warn = "warn"
