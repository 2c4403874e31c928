-- ===== src/Probe/Dns.antt =====
-- internal/probe/dns.go: `DNSProber` and `ICMPProber`. The exchange with the DNS server, the resolver and
-- the clock are arguments, and so are the names that the DNS library has for types and codes.
pub mod Success
use gi_con_mon.Model.{
  FloatOps, Time, Duration, ProbeResult, Target, AnyMap, microseconds, sub, int, str,
}
use Prim.Native.String.{len, slice}
use gi_con_mon.Common.{
  [], ◌∷◌, String, ℕ, if◌then◌else◌, ℤ, List, Bool, false, str_eq, ◌-◌, Option, length, insert,
  int_leb, str_append, pos, ◌||◌, some, ◌==◌, not, none, true, ◌&&◌,
}
use gi_con_mon.Probe.Options.{str_or, fail_result}

-- The query types that the code knows.
pub data QueryType : Type 0 where
  type_a type_aaaa type_mx type_txt type_ns type_cname : QueryType

-- What the code tells apart among the records of an answer: A and AAAA with the address and the time to
-- live, CNAME with its target.
pub data Answer : Type 0 where
  a_record : (ip : String) (ttl : ℕ) → Answer
  aaaa_record : (ip : String) (ttl : ℕ) → Answer
  cname_record : (target : String) → Answer
  other_record : Answer

pub record DnsQuestion : Type 0 where
  pub domain : String
  pub qtype : QueryType
  pub server : String

pub record DnsResponse : Type 0 where
  pub answers : List Answer
  pub rcode : ℕ

-- `ExchangeContext`: an error, or an answer with its round-trip time.
pub data DnsExchange : Type 0 where
  dns_failed : String → DnsExchange
  dns_answered : Duration → DnsResponse → DnsExchange

-- What `LookupIPAddr` answers: an error, or addresses.
pub data Resolved : Type 0 where
  not_resolved : String → Resolved
  addresses : List String → Resolved

-- The names of the DNS library, and `fmt`'s printing of a number and of a quoted text.
pub record DnsLib : Type 0 where
  pub decimal : ℤ → String
  pub quoted : String → String
  pub type_to_string : QueryType → String
  pub rcode_to_string : ℕ → String

-- `time.Now()` before the exchange, behind it, and for the result.
pub record DnsClock : Type 0 where
  pub start : Time
  pub ended : Time
  pub done : Time

-- The domain with a dot at its end.
unfoldable pub qualified : String → String
qualified domain =
    if str_eq (slice domain (len domain - 1) (len domain)) "."
    then domain
    else str_append domain "."

unfoldable pub query_type : String → QueryType
query_type s =
    if str_eq s "AAAA"
    then type_aaaa
    else if str_eq s "MX"
    then type_mx
    else if str_eq s "TXT"
    then type_txt
    else if str_eq s "NS"
    then type_ns
    else if str_eq s "CNAME"
    then type_cname
    else type_a

-- The test of one record against the expected answer.
unfoldable pub is_expected : String → Answer → Bool
is_expected expected (a_record ip ttl) = str_eq ip expected
is_expected expected (aaaa_record ip ttl) = str_eq ip expected
is_expected expected (cname_record target) =
    str_eq target (str_append expected ".") || str_eq target expected
is_expected expected other_record = false

-- The loop that looks for the expected answer.
unfoldable pub is_found : String → List Answer → Bool
unfolding is_expected
is_found expected [] = false
is_found expected (a ∷ answers) = is_expected expected a || is_found expected answers

module _ {F : Type 0} ⦃fl : FloatOps F⦄ where
  -- `float64(d.Microseconds()) / 1000.0`
  unfoldable pub in_milli : Duration → F
  in_milli d = fl.div (fl.of_int (microseconds d)) (fl.of_int (pos 1000))

  -- The loop that notes the address and the time to live, a `uint32`, which stands here as `int`.
  unfoldable pub note_answers : List Answer → AnyMap F → AnyMap F
  note_answers [] detail = detail
  note_answers (a_record ip ttl ∷ answers) detail =
      note_answers answers (insert "ttl" (int (pos ttl)) (insert "resolved_ip" (str ip) detail))
  note_answers (aaaa_record ip ttl ∷ answers) detail =
      note_answers answers (insert "ttl" (int (pos ttl)) (insert "resolved_ip" (str ip) detail))
  note_answers (cname_record target ∷ answers) detail = note_answers answers detail
  note_answers (other_record ∷ answers) detail = note_answers answers detail

  module _ (lib : DnsLib) where
    -- `Validate`
    unfoldable pub validate_dns : AnyMap F → Option String
    unfolding str_or
    validate_dns config =
        if str_eq (str_or config "query_domain" "") ""
        then some "probe_config.query_domain is required for DNS probes"
        else none

    unfoldable pub dns_question : Target F → DnsQuestion
    unfolding str_or qualified query_type
    dns_question t =
        let port = if int_leb t.port (pos 0) then pos 53 else t.port in
        record {
          domain = qualified (str_or t.probe_config "query_domain" "");
          qtype = query_type (str_or t.probe_config "query_type" "A");
          server = str_append t.host (str_append ":" (lib.decimal port));
        }

    unfoldable pub dns_failure : Time → F → String → String → ProbeResult F
    unfolding fail_result
    dns_failure done latency code msg = record (fail_result done code msg) { latency_ms = latency }

    -- The checks of an answer.
    unfoldable pub judge_answers : Target F → DnsClock → Duration → DnsResponse → ProbeResult F
    unfolding str_or is_found note_answers dns_failure fail_result in_milli dns_question
    judge_answers t clock rtt resp =
        let expected = str_or t.probe_config "expected_answer" "" in
        let q = dns_question t in
        if length resp.answers == 0
        then dns_failure clock.done (in_milli rtt) "dns_no_answer" (
            str_append "no answer for "
              (str_append q.domain (str_append " " (lib.type_to_string q.qtype))))
        else if not (str_eq expected "") && not (is_found expected resp.answers)
        then dns_failure clock.done (in_milli rtt) "dns_unexpected_answer"
            (str_append "expected answer " (str_append (lib.quoted expected) " not found"))
        else record (fail_result clock.done "" "") {
          success = true;
          latency_ms = in_milli rtt;
          detail = note_answers resp.answers (
              ("answer_count", int (pos (length resp.answers)))
              ∷ ("rcode", str (lib.rcode_to_string resp.rcode))
              ∷ []);
        }

    -- What follows the exchange.
    abbrev pub after_dns : Target F → DnsClock → DnsExchange → ProbeResult F
    after_dns t clock (dns_failed text) =
        dns_failure clock.done (in_milli (sub clock.ended clock.start)) "dns_resolve_error" text
    after_dns t clock (dns_answered rtt resp) = judge_answers t clock rtt resp

    -- `DNSProber.Probe`
    unfoldable pub dns_probe : Target F → (DnsQuestion → DnsExchange) → DnsClock → ProbeResult F
    unfolding str_or fail_result dns_question
    dns_probe t exchange clock =
        if str_eq (str_or t.probe_config "query_domain" "") ""
        then fail_result clock.done "dns_config_error" "query_domain not configured"
        else after_dns t clock (exchange (dns_question t))

  -- `ICMPProber.Probe`. The connection to port 80 only takes its time: its outcome is not read.
  unfoldable pub icmp_probe : (String → Resolved) → DnsClock → Target F → ProbeResult F
  unfolding fail_result in_milli
  icmp_probe resolve clock t = elim (resolve t.host) [
    | not_resolved text ↦ record (fail_result clock.done "icmp_dns_error" text) {
      latency_ms = in_milli (sub clock.ended clock.start);
    }
    | addresses ips ↦ elim ips [
      | [] ↦ fail_result clock.done "icmp_no_addr" "host resolved to no addresses"
      | ip ∷ rest ↦ record (fail_result clock.done "" "") {
        success = true;
        latency_ms = in_milli (sub clock.ended clock.start);
        detail = ("resolved_ip", str ip) ∷ [];
      }
    ]
  ]
