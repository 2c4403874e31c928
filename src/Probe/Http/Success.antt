-- ===== src/Probe/Http/Success.antt =====
-- When an HTTP probe succeeds.
use gi_con_mon.Model.{FloatOps, Target}
use gi_con_mon.Common.{◌≡◌, true, ◌⊎◌}
use gi_con_mon.Probe.Options.{str_or, contains_int}
use gi_con_mon.Probe.Http.{HttpLib, Exchange, HttpResponse, expected_codes, answered, contains_text}

module _ {F H : Type 0} ⦃fl : FloatOps F⦄ (lib : HttpLib F H) where
  -- An answer that the options of the target accept.
  abbrev pub Acceptable : Target F → HttpResponse → Type 0
  Acceptable t resp =
      (contains_int (expected_codes lib t.probe_config) resp.status_code ≡ true)
      × ((str_or t.probe_config "body_contains" "" ≡ "")
          ⊎ (contains_text resp.body (str_or t.probe_config "body_contains" "") ≡ true))

  abbrev pub IsAccepted : Target F → Exchange → Type 0
  IsAccepted t (answered resp) = Acceptable t resp
  IsAccepted t _ = ⊥
