-- ===== src/Probe/Tcp.antt =====
-- internal/probe/tcp.go: `TCPProber.Probe`. What the network does is an argument: the outcome of
-- `DialContext` and of the sending, and the three readings of the clock.
use gi_con_mon.Common.{
  String, Bool, true, false, Option, none, some, if◌then◌else◌, str_eq, pos, int_leb, ◌≡◌, ◌↔◌,
  arith, eq_iff, ◌<ℤ◌, ◌⊎◌,
}
use gi_con_mon.Model.{Time, sub, microseconds, FloatOps, Target, ProbeResult}
use gi_con_mon.Probe.Options.{str_or, fail_result}

-- An error of the network, its text and, for a `net.OpError`, its operation.
pub record NetError : Type 0 where
  pub text : String
  pub op : Option String

-- What the network does with one probe: the error of the dial, and of the sending over the connection.
pub record Network : Type 0 where
  pub dial : Option NetError
  pub send : Option NetError

-- `time.Now()` before the dial, after it, and for the result.
pub record Clock : Type 0 where
  pub start : Time
  pub dialled : Time
  pub done : Time

-- `isRefused`: any error of the dial.
unfoldable pub is_refused : NetError → Bool
is_refused err = elim err.op [ none ↦ false | some op ↦ str_eq op "dial" ]

module _ {F : Type 0} ⦃fl : FloatOps F⦄ where
  -- `float64(time.Since(start).Microseconds()) / 1000.0`
  unfoldable pub elapsed_ms : Clock → F
  unfolding sub
  elapsed_ms c = fl.div (fl.of_int (microseconds (sub c.dialled c.start))) (fl.of_int (pos 1000))

  unfoldable pub failure : Clock → String → NetError → ProbeResult F
  unfolding fail_result elapsed_ms
  failure c code err = record (fail_result c.done code err.text) { latency_ms = elapsed_ms c }

  unfoldable pub connected : Clock → ProbeResult F
  unfolding fail_result elapsed_ms
  connected c = record (fail_result c.done "" "") {
    success = true;
    latency_ms = elapsed_ms c;
    status_code = pos 1;
  }

  -- The optional sending of data over the connection.
  unfoldable pub after_dial : Target F → Network → Clock → ProbeResult F
  unfolding str_or failure connected
  after_dial t net c =
      if str_eq (str_or t.probe_config "send_data" "") ""
      then connected c
      else elim net.send [ none ↦ connected c | some err ↦ failure c "tcp_send_error" err ]

  -- `TCPProber.Probe`
  unfoldable pub tcp_probe : Target F → Network → Clock → ProbeResult F
  unfolding after_dial failure fail_result is_refused
  tcp_probe t net c =
      if int_leb t.port (pos 0)
      then fail_result c.done "invalid_port" "TCP probe requires a valid port"
      else elim net.dial [
        | none ↦ after_dial t net c
        | some err ↦ failure c (if is_refused err then "tcp_refused" else "tcp_timeout") err
      ]

  -- A probe of a target succeeds exactly if the target has a port, the dial succeeds, and, where there
  -- is data to send, the sending does.
  pub success-tcp_probe :
      (t : Target F) (net : Network) (c : Clock)
      → ((tcp_probe t net c).success ≡ true) ↔ (
          (pos 0 <ℤ t.port)
          × (net.dial ≡ none)
          × ((str_or t.probe_config "send_data" "" ≡ "") ⊎ (net.send ≡ none)))
  unfolding tcp_probe after_dial failure connected fail_result
  success-tcp_probe t net c = ground (arith, eq_iff (str_or t.probe_config "send_data" "") "")
