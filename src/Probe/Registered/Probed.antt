-- ===== src/Probe/Registered/Probed.antt =====
-- Which targets of the scheduler of internal/probe/probe.go are probed at all.
use gi_con_mon.Probe.Registry.{register, get, Prober}
use gi_con_mon.Model.{
  Time, ProbeResult, proto_icmp, proto_http, proto_https, proto_tcp, FloatOps, proto_dns,
}
use gi_con_mon.Common.{
  List, lookup, ℕ, Option, insert, none, some, arith, inl, inr, false, eq_iff, ◌⊎◌, refl, String,
  ◌≡◌,
}
use gi_con_mon.Probe.Scheduler.{finish, Timer, run_result, Scheduler, take_timer, reschedule}
use gi_con_mon.Probe.Registered.{
  Outside, registered, dns_prober, http_prober, https_prober, tcp_prober,
}

-- The four protocols that have a prober.
abbrev pub HasProber : String → Type 0
HasProber protocol =
    (protocol ≡ proto_dns)
    ⊎ (protocol ≡ proto_http)
    ⊎ (protocol ≡ proto_https)
    ⊎ (protocol ≡ proto_tcp)

HasProber-cases : (protocol : String) → HasProber protocol ⊎ (¬ HasProber protocol)
HasProber-cases protocol = ground (
  arith,
  eq_iff protocol proto_dns,
  eq_iff protocol proto_http,
  eq_iff protocol proto_https,
  eq_iff protocol proto_tcp,
)

icmp_has_none : ¬ HasProber proto_icmp
icmp_has_none h = ground (
  arith,
  eq_iff proto_icmp proto_dns,
  eq_iff proto_icmp proto_http,
  eq_iff proto_icmp proto_https,
  eq_iff proto_icmp proto_tcp,
)

module _ {F H : Type 0} ⦃fl : FloatOps F⦄ (w : Outside F H) where
  get-registered-none :
      (protocol : String) → ¬ HasProber protocol → get protocol (registered w) ≡ none
  unfolding registered get register lookup insert
  get-registered-none protocol h = ground (
    arith,
    eq_iff proto_dns protocol,
    eq_iff proto_http protocol,
    eq_iff proto_https protocol,
    eq_iff proto_tcp protocol,
  )

  get-registered-some :
      (protocol : String)
      → HasProber protocol
      → (p : Prober F) × (get protocol (registered w) ≡ some p)
  unfolding registered get register lookup insert
  get-registered-some protocol (inl e) = (dns_prober w, rw e refl)
  get-registered-some protocol (inr (inl e)) = (http_prober w, rw e refl)
  get-registered-some protocol (inr (inr (inl e))) = (https_prober w, rw e refl)
  get-registered-some protocol (inr (inr (inr e))) = (tcp_prober w, rw e refl)

  -- A run that ends with these answers.
  abbrev pub Probed :
      Timer F → List (Timer F) → Scheduler F → Scheduler F × Option (ProbeResult F) → Type 0
  Probed p rest s out =
      (r : ProbeResult F) × (out.1 ≡ some r)
      × (r.target_id ≡ p.target.id)
      × (r.probe_node_id ≡ s.node_id)
      × (out.0 ≡ reschedule p.target r.success (record s { running = rest }))

  abbrev pub Skipped :
      Timer F → List (Timer F) → Scheduler F → Scheduler F × Option (ProbeResult F) → Type 0
  Skipped p rest s out =
      (out.1 ≡ none) × (out.0 ≡ reschedule p.target false (record s { running = rest }))

  -- With the probers that the program registers, a run hands the handler one result, of its target and
  -- node, exactly if the protocol of the target is dns, http, https or tcp, and the target is
  -- rescheduled by that result; for every other protocol, icmp included, it hands on nothing and the
  -- target is rescheduled as after a failure.
  pub finish-Probed :
      (now : Time) (id : String) (n : ℕ) (p : Timer F) (rest : List (Timer F)) (s : Scheduler F)
      → take_timer id n s.running ≡ some (p, rest)
      → ((HasProber p.target.protocol × Probed p rest s (finish now (registered w) id n s))
          ⊎ ((¬ HasProber p.target.protocol) × Skipped p rest s (finish now (registered w) id n s)))
        × (¬ HasProber proto_icmp)
  unfolding finish run_result
  finish-Probed now id n p rest s found = (
    elim (HasProber-cases p.target.protocol) [
      | inl h ↦
          let (q, e) = get-registered-some p.target.protocol h in
          inl (h, rw (found, finish, e, run_result) (_, refl, refl, refl, refl))
      | inr h ↦
          inr (
            h,
            rw (found, finish, get-registered-none p.target.protocol h, run_result) (refl, refl),
          )
    ],
    icmp_has_none,
  )
