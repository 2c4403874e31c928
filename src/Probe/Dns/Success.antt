-- ===== src/Probe/Dns/Success.antt =====
-- When a DNS probe succeeds.
use gi_con_mon.Model.{FloatOps, Target}
use gi_con_mon.Common.{◌≡◌, String, List, true, ◌∷◌, ◌↔◌, arith, ◌<◌, ◌⊎◌, none, eq_iff, length, []}
use gi_con_mon.Probe.Options.{str_or, fail_result}
use gi_con_mon.Probe.Dns.{
  DnsLib, is_found, judge_answers, dns_probe, validate_dns, dns_failure, DnsExchange, Answer,
  dns_failed, DnsQuestion, DnsClock, after_dns, dns_answered, is_expected, dns_question,
}

-- Some record is the expected one.
abbrev pub AnyExpected : String → List Answer → Type 0
AnyExpected expected [] = ⊥
AnyExpected expected (a ∷ answers) = (is_expected expected a ≡ true) ⊎ AnyExpected expected answers

is_found_iff :
    (expected : String) (answers : List Answer)
    → (is_found expected answers ≡ true) ↔ AnyExpected expected answers
unfolding is_found
is_found_iff expected [] = ground arith
is_found_iff expected (a ∷ answers) = ground (arith, is_found_iff expected answers)

module _ {F : Type 0} ⦃fl : FloatOps F⦄ (lib : DnsLib) where
  -- An exchange that the options of the target accept.
  abbrev pub IsAccepted : Target F → DnsExchange → Type 0
  IsAccepted t (dns_failed text) = ⊥
  IsAccepted t (dns_answered rtt resp) =
      (0 < length resp.answers)
      × ((str_or t.probe_config "expected_answer" "" ≡ "")
          ⊎ AnyExpected (str_or t.probe_config "expected_answer" "") resp.answers)

  after_dns_success :
      (t : Target F) (clock : DnsClock) (x : DnsExchange)
      → ((after_dns lib t clock x).success ≡ true) ↔ IsAccepted t x
  unfolding judge_answers dns_failure fail_result
  after_dns_success t clock (dns_failed text) = ground arith
  after_dns_success t clock (dns_answered rtt resp) = ground (
    arith,
    eq_iff (str_or t.probe_config "expected_answer" "") "",
    is_found_iff (str_or t.probe_config "expected_answer" "") resp.answers,
  )

  pub success-dns_probe :
      (t : Target F) (exchange : DnsQuestion → DnsExchange) (clock : DnsClock)
      → ((dns_probe lib t exchange clock).success ≡ true)
        ↔ ((validate_dns lib t.probe_config ≡ none) × IsAccepted t (exchange (dns_question lib t)))
  unfolding dns_probe fail_result validate_dns
  success-dns_probe t exchange clock = ground (
    arith,
    eq_iff (str_or t.probe_config "query_domain" "") "",
    after_dns_success t clock (exchange (dns_question lib t)),
  )
