-- ===== src/Cmd/Service/Refused.antt =====
-- That the server of cmd/conmon/server.go never serves with the router of gin.
use gi_con_mon.Storage.Store.{Store}
use gi_con_mon.Model.{FloatOps}
use gi_con_mon.Config
use gi_con_mon.Common.{◌≡◌, refl, String}
use gi_con_mon.Api.Server.Routes.{Router, IsRouter}
use gi_con_mon.Api.Server.Routes.Taken.{register_routes-none}
use gi_con_mon.Config.Load.{Viper, Loaded, loaded, not_read, not_unmarshalled, invalid, load}
use gi_con_mon.Cmd.Service.{
  Opened, opened, not_opened, Service, Ended, load_failed, open_failed, panicked, Starting,
  after_open, after_load, run_server,
}

module _ {F M : Type 0} ⦃fl : FloatOps F⦄ (v : Viper F) (S : Store F)
    (open_store : String → Opened S) (R : Router) (gin : IsRouter R)
    (serving : Service S M → Service S M) (starting : Starting) where
  -- The end that the storage and the configuration leave.
  abbrev pub opened_end : Opened S → Ended S M
  opened_end (opened store) = panicked
  opened_end (not_opened text) = open_failed text

  abbrev pub early_end : Loaded F → Ended S M
  early_end (loaded cfg) = opened_end (open_store cfg.storage.path)
  early_end other = load_failed other

  after_open-early :
      (cfg : Config.Config F) (o : Opened S)
      → after_open v S open_store R serving starting cfg o ≡ opened_end o
  unfolding after_open
  after_open-early cfg (not_opened text) = refl
  after_open-early cfg (opened store) = rw (register_routes-none R gin R.empty, after_open) refl

  after_load-early : (l : Loaded F) → after_load v S open_store R serving starting l ≡ early_end l
  unfolding after_load
  after_load-early (loaded cfg) = after_open-early cfg (open_store cfg.storage.path)
  after_load-early (not_read msg) = refl
  after_load-early (not_unmarshalled msg) = refl
  after_load-early (invalid e) = refl

  -- With a router that refuses, as gin does, to register a path for a method again, the server never
  -- serves: whatever the configuration, the storage and the serving, `runServer` ends with the error of
  -- the configuration, or with that of the storage, or else in a panic, before any target is saved or
  -- scheduled, since GET / is registered twice.
  pub run_server-Refused :
      (path : String) → run_server v S open_store R serving starting path ≡ early_end (load v path)
  unfolding run_server
  run_server-Refused path = after_load-early (load v path)
