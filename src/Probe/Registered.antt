-- ===== src/Probe/Registered.antt =====
-- internal/probe: the probers that the package registers when the program starts, by the `init` of dns.go,
-- http.go and tcp.go, in the order of these files. What a probe meets of the network and of the clock
-- are arguments.
pub mod Probed
use gi_con_mon.Common.{
  lookup, true, false, [], insert, String, ◌≡◌, Bool-cases, ◌⊎◌, some, str_eq, inl, none, inr, sym,
  eq_iff, refl, arith,
}
use gi_con_mon.Model.{Target, FloatOps, proto_https, proto_http, proto_dns, proto_tcp}
use gi_con_mon.Probe.Dns.{DnsLib, DnsQuestion, DnsExchange, DnsClock, dns_probe}
use gi_con_mon.Probe.Http.{HttpLib, HttpRequest, Exchange, Trace, do_http}
use gi_con_mon.Probe.Tcp.{Network, Clock, tcp_probe}
use gi_con_mon.Probe.Registry.{Registry, Prober, register, answered, get}

-- What the probers take from the libraries, from the network and from the clock.
pub record Outside (F H : Type 0) : Type 0 where
  pub dns_lib : DnsLib
  pub dns_exchange : Target F → DnsQuestion → DnsExchange
  pub dns_clock : Target F → DnsClock
  pub http_lib : HttpLib F H
  pub http_exchange : Target F → HttpRequest H → Exchange
  pub http_trace : Target F → Trace
  pub tcp_network : Target F → Network
  pub tcp_clock : Target F → Clock

module _ {F H : Type 0} ⦃fl : FloatOps F⦄ (w : Outside F H) where
  -- `DNSProber`
  unfoldable pub dns_prober : Prober F
  dns_prober = record {
    protocol = proto_dns;
    probe = λ t. answered (dns_probe w.dns_lib t (w.dns_exchange t) (w.dns_clock t));
  }

  -- `HTTPProber`
  unfoldable pub http_prober : Prober F
  http_prober = record {
    protocol = proto_http;
    probe = λ t. answered (do_http w.http_lib t false (w.http_exchange t) (w.http_trace t));
  }

  -- `HTTPSProber`
  unfoldable pub https_prober : Prober F
  https_prober = record {
    protocol = proto_https;
    probe = λ t. answered (do_http w.http_lib t true (w.http_exchange t) (w.http_trace t));
  }

  -- `TCPProber`
  unfoldable pub tcp_prober : Prober F
  tcp_prober = record {
    protocol = proto_tcp;
    probe = λ t. answered (tcp_probe t (w.tcp_network t) (w.tcp_clock t));
  }

  -- The registry behind the four calls of `Register`.
  unfoldable pub registered : Registry F
  unfolding register dns_prober http_prober https_prober tcp_prober
  registered =
      register tcp_prober (register https_prober (register http_prober (register dns_prober [])))
