-- ===== src/Probe/Http.antt =====
-- internal/probe/http.go: `doHTTP`, the probe of a web page. The exchange over the network (`client.Do`
-- with its redirects, and the reading of the body up to 64 KiB) and the clock are arguments, and so are
-- the printing of values and `http.Header`.
pub mod Success
pub mod Stored
use gi_con_mon.Model.{
  FloatOps, Time, sub, AnyMap, Any, Target, Fields, Duration, ProbeResult, int, field, microseconds,
  end, object, str, float,
}
use Prim.Native.String.{find, len}
use gi_con_mon.Common.{
  String, Bool, ℕ, ℤ, Option, List, if◌then◌else◌, leb, some, str_eq, pos, ◌==◌, str_append,
  int_ltb, [], ◌∷◌, none, not, ◌&&◌, lookup, true, false,
}
use gi_con_mon.Probe.Options.{str_or, bool_or, int_slice_or, contains_int, ms, fail_result}

-- `fmt` and `http.Header`: the printing of numbers, lists and values, the hours of a duration, and the
-- setting and reading of a header.
pub record HttpLib (F H : Type 0) : Type 0 where
  pub decimal : ℤ → String
  pub ints : List ℤ → String
  pub value : Any F → String
  pub quoted : String → String
  pub hex4 : ℕ → String
  pub hours : Duration → F
  pub no_headers : H
  pub set_header : String → String → H → H
  pub header : String → H → String

-- What `doHTTP` asks the client for.
pub record HttpRequest (H : Type 0) : Type 0 where
  pub method : String
  pub url : String
  pub body : Option String
  pub headers : H
  pub skip_verify : Bool
  pub follow_redirects : Bool

-- `resp.TLS`, with the version and the `NotAfter` of the first certificate, if there is one.
pub record TlsState : Type 0 where
  pub version : ℕ
  pub not_after : Option Time

pub record HttpResponse : Type 0 where
  pub status_code : ℤ
  pub body : String
  pub tls : Option TlsState

-- The request cannot be built, the exchange fails, or it is answered.
pub data Exchange : Type 0 where
  not_built : String → Exchange
  not_answered : String → Exchange
  answered : HttpResponse → Exchange

-- The instants that the trace notes (0 where it notes none), and those of the code itself.
pub record Trace : Type 0 where
  pub dns_start : Time
  pub dns_done : Time
  pub tcp_start : Time
  pub tcp_done : Time
  pub tls_start : Time
  pub tls_done : Time
  pub first_byte : Time
  pub start : Time
  pub read : Time
  pub until_from : Time
  pub done : Time

-- `strings.Contains`
unfoldable pub contains_text : String → String → Bool
contains_text s part = leb (find s part) (len s)

module _ {F H : Type 0} ⦃fl : FloatOps F⦄ (lib : HttpLib F H) where
  -- `tlsVersionName`
  unfoldable pub tls_version_name : ℕ → String
  tls_version_name v =
      if v == 769
      then "TLS1.0"
      else if v == 770
      then "TLS1.1"
      else if v == 771
      then "TLS1.2"
      else if v == 772
      then "TLS1.3"
      else str_append "0x" (lib.hex4 v)

  -- The loop over the custom headers, in the order of the map.
  unfoldable pub set_headers : Fields F → H → H
  set_headers end h = h
  set_headers (field k v fields) h = set_headers fields (lib.set_header k (lib.value v) h)

  abbrev pub custom_headers : Option (Any F) → H
  custom_headers (some (object fields)) = set_headers fields lib.no_headers
  custom_headers _ = lib.no_headers

  abbrev pub with_agent : H → H
  with_agent h =
      if str_eq (lib.header "User-Agent" h) ""
      then lib.set_header "User-Agent" "conmon-probe/2.0" h
      else h

  abbrev pub host_of : Target F → String
  host_of t =
      if int_ltb (pos 0) t.port
      then str_append t.host (str_append ":" (lib.decimal t.port))
      else t.host

  -- The request, up to `client.Do`.
  unfoldable pub http_request : Target F → Bool → HttpRequest H
  unfolding str_or bool_or set_headers
  http_request t use_tls =
      let cfg = t.probe_config in
      let body = str_or cfg "body" "" in
      record {
        method = str_or cfg "method" "GET";
        url =
            str_append (if use_tls then "https" else "http")
              (str_append "://" (str_append (host_of t) (str_or cfg "path" "/")));
        body = if str_eq body "" then none else some body;
        headers = with_agent (custom_headers (lookup "headers" cfg));
        skip_verify = bool_or cfg "tls_skip_verify" false;
        follow_redirects = bool_or cfg "follow_redirects" true;
      }

  unfoldable pub expected_codes : AnyMap F → List ℤ
  unfolding int_slice_or
  expected_codes cfg = int_slice_or cfg "expected_codes" (pos 200 ∷ [])

  -- The details of the first certificate.
  abbrev pub cert_detail : Trace → ℕ → Option Time → AnyMap F
  cert_detail trace version none = []
  cert_detail trace version (some expiry) =
      (
        "cert_expiry_days",
        int (fl.to_int64 (fl.div (lib.hours (sub expiry trace.until_from)) (fl.of_int (pos 24)))),
      )
      ∷ ("tls_version", str (tls_version_name version))
      ∷ []

  abbrev pub tls_detail : Trace → Option TlsState → AnyMap F
  tls_detail trace none = []
  tls_detail trace (some tls) = cert_detail trace tls.version tls.not_after

  unfoldable pub http_detail : Bool → Trace → HttpResponse → AnyMap F
  unfolding ms tls_version_name sub
  http_detail use_tls trace resp =
      ("status_code", int resp.status_code)
      ∷ ("first_byte_ms", float (ms trace.first_byte trace.start))
      ∷ ("dns_ms", float (ms trace.dns_done trace.dns_start))
      ∷ ("tcp_ms", float (ms trace.tcp_done trace.tcp_start))
      ∷ (if use_tls
          then ("tls_ms", float (ms trace.tls_done trace.tls_start)) ∷ tls_detail trace resp.tls
          else [])

  -- A result behind an answer; its message is empty where the probe succeeds.
  unfoldable pub http_result : Trace → HttpResponse → String → String → ProbeResult F
  unfolding fail_result sub
  http_result trace resp code msg = record (fail_result trace.done code msg) {
    latency_ms =
        fl.div (fl.of_int (microseconds (sub trace.read trace.start))) (fl.of_int (pos 1000));
    status_code = resp.status_code;
  }

  -- The checks of the answer.
  unfoldable pub judge : Target F → Bool → Trace → HttpResponse → ProbeResult F
  unfolding str_or contains_int contains_text http_result expected_codes http_detail
  judge t use_tls trace resp =
      let codes = expected_codes t.probe_config in
      let wanted = str_or t.probe_config "body_contains" "" in
      if not (contains_int codes resp.status_code)
      then http_result trace resp "http_unexpected_status" (
          str_append "got "
            (str_append (lib.decimal resp.status_code) (str_append ", want " (lib.ints codes))))
      else if not (str_eq wanted "") && not (contains_text resp.body wanted)
      then http_result trace resp "body_mismatch"
          (str_append "response body does not contain " (lib.quoted wanted))
      else record (http_result trace resp "" "") {
        success = true;
        detail = http_detail use_tls trace resp;
      }

  -- What follows `client.Do`.
  abbrev pub after_exchange : Target F → Bool → Trace → Exchange → ProbeResult F
  after_exchange t use_tls trace (not_built text) = fail_result trace.done "http_build_request" text
  after_exchange t use_tls trace (not_answered text) = fail_result trace.done "http_timeout" text
  after_exchange t use_tls trace (answered resp) = judge t use_tls trace resp

  -- `doHTTP`
  unfoldable pub do_http : Target F → Bool → (HttpRequest H → Exchange) → Trace → ProbeResult F
  unfolding http_request
  do_http t use_tls exchange trace =
      after_exchange t use_tls trace (exchange (http_request t use_tls))
