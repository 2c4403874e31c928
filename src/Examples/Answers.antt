-- ===== src/Examples/Answers.antt =====
-- The theorems about the probes of internal/probe/http.go and internal/probe/dns.go and about
-- internal/alerter/notifier/notifier.go at concrete answers of the network.
use gi_con_mon.Alerter.Engine.{Message}
use gi_con_mon.Model.{Target, Alert, AnyMap, firing, str, slice, cons, float, int, nil}
use gi_con_mon.Probe.Dns.{
  DnsLib, DnsQuestion, dns_probe, DnsExchange, dns_answered, a_record, judge_answers,
}
use gi_con_mon.Common.{
  String, ◌≡◌, refl, [], ◌∷◌, false, pos, ℕ, lookup, List, str_append, none, true, ◌↔◌, some, ◌≢◌,
}
use gi_con_mon.Probe.Http.{
  HttpLib, HttpRequest, HttpResponse, Trace, answered, do_http, Exchange, judge,
}
use gi_con_mon.Alerter.Notifier.{
  NotifierLib, replied, Post, webhook_send, Reply, text_at, webhook_post, ding_talk_send,
  ding_talk_post, we_com_send, we_com_post,
}
use gi_con_mon.Alerter.Notifier.Sent.{sends_none, HookAccepts, RobotAccepts}
use gi_con_mon.Examples.Samples.{milli, web, outage}

-- Headers are the list of their settings.
abbrev pub printing : HttpLib ℕ (List (String × String))
printing = record {
  decimal = λ n. "n";
  ints = λ ns. "ns";
  value = λ v. "v";
  quoted = λ s. s;
  hex4 = λ n. "0000";
  hours = λ d. 0;
  no_headers = [];
  set_header = λ k v h. (k, v) ∷ h;
  header = λ k h. "";
}

-- A page whose body must hold a word, and that may answer 200 or 204.
abbrev page : Target ℕ
page = record web {
  host = "shop";
  probe_config =
      ("expected_codes", slice (cons (int (pos 200)) (cons (int (pos 204)) nil)))
      ∷ ("body_contains", str "welcome")
      ∷ [];
}

abbrev pub times : Trace
times = record {
  dns_start = 0;
  dns_done = 0;
  tcp_start = 10;
  tcp_done = 20;
  tls_start = 0;
  tls_done = 0;
  first_byte = 30;
  start = 5;
  read = 40;
  until_from = 50;
  done = 60;
}

abbrev greeting : HttpResponse
greeting = record { status_code = pos 200; body = "you are welcome"; tls = none }

abbrev pub greets : HttpRequest (List (String × String)) → Exchange
greets request = answered greeting

test_success : (do_http printing page false greets times).success ≡ true
unfolding do_http judge lookup
test_success = refl

-- A name server that answers with two addresses.
abbrev pub names : DnsLib
names = record {
  decimal = λ n. "n";
  quoted = λ s. s;
  type_to_string = λ t. "A";
  rcode_to_string = λ n. "NOERROR";
}

abbrev zone : Target ℕ
zone = record web {
  probe_config = ("query_domain", str "shop.example") ∷ ("expected_answer", str "10.0.0.2") ∷ [];
}

abbrev pub resolves : DnsQuestion → DnsExchange
resolves q =
    dns_answered (pos 3_000_000)
      (record { answers = a_record "10.0.0.1" 60 ∷ a_record "10.0.0.2" 60 ∷ []; rcode = 0 })

test_dns :
    (dns_probe names zone resolves (record { start = 1; ended = 2; done = 3 })).success ≡ true
unfolding dns_probe lookup judge_answers
test_dns = refl

-- The notifiers at a server that answers 200 and an error code of its own.
abbrev hooks_lib : NotifierLib ℕ (List (String × String))
hooks_lib = record {
  decimal = λ n. "n";
  value = λ v. "v";
  rfc3339 = λ t. "t";
  hmac_base64 = λ key text. str_append key text;
  no_headers = [];
  set_header = λ k v h. (k, v) ∷ h;
}

abbrev refuses : Post ℕ (List (String × String)) → Reply ℕ
refuses post = replied (pos 200) (some (("errcode", float 310_000_000) ∷ []))

abbrev raised : Alert
raised = record {
  id = "alert-1";
  event_id = "event-1";
  target_id = "web";
  rule_name = "outage";
  severity = "error";
  status = firing;
  title = "down";
  body = "shop is down";
  channels = [];
  sent_at = 70;
  resolved_at = none;
  escalation_level = pos 1;
  next_escalate_at = none;
  group_id = "";
}

abbrev notice : Message ℕ
notice = record {
  title = "down";
  body = "shop is down";
  severity = "error";
  alert = raised;
  event = outage;
  target = web;
}

abbrev channel : AnyMap ℕ
channel =
    ("url", str "https://hook") ∷ ("webhook", str "https://robot") ∷ ("secret", str "key") ∷ []

sends_none_example :
    ((webhook_send hooks_lib refuses notice channel ≡ none) ↔ (
      (text_at channel "url" ≢ "")
      × HookAccepts hooks_lib (refuses (webhook_post hooks_lib notice channel))))
    × ((ding_talk_send hooks_lib refuses (pos 9) notice channel ≡ none) ↔ (
        (text_at channel "webhook" ≢ "")
        × RobotAccepts hooks_lib (refuses (ding_talk_post hooks_lib (pos 9) notice channel))))
    × ((we_com_send hooks_lib refuses notice channel ≡ none) ↔ (
        (text_at channel "webhook" ≢ "")
        × RobotAccepts hooks_lib (refuses (we_com_post hooks_lib notice channel))))
sends_none_example = sends_none hooks_lib refuses (pos 9) notice channel
