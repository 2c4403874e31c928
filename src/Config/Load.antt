-- ===== src/Config/Load.antt =====
-- internal/config/config.go: `Load`, `setDefaults` and `expandEnvInViper`, over viper and the environment,
-- which are arguments.
pub mod Outcome
use gi_con_mon.Config.Types.{Config}
use gi_con_mon.Common.{String, [], ◌∷◌, if◌then◌else◌, List, ℕ, Option, some, str_eq, none}
use gi_con_mon.Config.Validate.{ConfigError, validate}

-- A default value.
pub data Default : Type 0 where
  text : String → Default
  number : ℕ → Default

-- An error of `ReadInConfig`: there is no file, or another one.
pub data ReadError : Type 0 where
  file_not_found : ReadError
  read_error : String → ReadError

-- What `Unmarshal` makes of the settings.
pub data Unmarshalled (F : Type 0) : Type 0 where
  parsed : Config F → Unmarshalled F
  not_parsed : String → Unmarshalled F

-- Viper's operations on its settings, and `os.ExpandEnv`.
pub record Viper (F : Type 0) : Type 1 where
  pub Settings : Type 0
  pub new_settings : Settings
  pub set_default : String → Default → Settings → Settings
  pub set_config_file : String → Settings → Settings
  pub set_config_name : String → Settings → Settings
  pub set_config_type : String → Settings → Settings
  pub add_config_path : String → Settings → Settings
  pub set_env_prefix : String → Settings → Settings
  pub replace_in_env_keys : String → String → Settings → Settings
  pub automatic_env : Settings → Settings
  pub read_in_config : Settings → Settings × Option ReadError
  pub all_keys : Settings → List String
  pub get_string : String → Settings → String
  pub set : String → String → Settings → Settings
  pub unmarshal : Settings → Unmarshalled F
  pub expand_env : String → String

-- The results of `Load`.
pub data Loaded (F : Type 0) : Type 0 where
  loaded : Config F → Loaded F
  not_read : String → Loaded F
  not_unmarshalled : String → Loaded F
  invalid : ConfigError → Loaded F

-- The defaults, in their order.
abbrev pub defaults : List (String × Default)
defaults =
    ("server.bind", text "0.0.0.0:11080")
    ∷ ("server.auth.token_expire", text "24h")
    ∷ ("storage.type", text "sqlite")
    ∷ ("storage.path", text "/var/lib/conmon/conmon.db")
    ∷ ("storage.timeseries.batch_size", number 1000)
    ∷ ("storage.timeseries.flush_interval", text "500ms")
    ∷ ("storage.retention.raw", text "168h")
    ∷ ("storage.retention.events", text "2160h")
    ∷ ("storage.retention.alerts", text "4320h")
    ∷ ("storage.postgresql.max_conns", number 50)
    ∷ ("storage.postgresql.min_conns", number 5)
    ∷ ("probe.concurrency", number 100)
    ∷ ("probe.buffer_size", number 100_000)
    ∷ ("log.level", text "info")
    ∷ ("log.format", text "json")
    ∷ ("log.output", text "stdout")
    ∷ ("debug.pprof_addr", text "127.0.0.1:6060")
    ∷ []

module _ {F : Type 0} (v : Viper F) where
  unfoldable pub put_defaults : List (String × Default) → v.Settings → v.Settings
  put_defaults [] s = s
  put_defaults ((key, value) ∷ rest) s = put_defaults rest (v.set_default key value s)

  -- `setDefaults`
  unfoldable pub set_defaults : v.Settings → v.Settings
  unfolding put_defaults
  set_defaults s = put_defaults defaults s

  -- Where the file is looked for.
  unfoldable pub locate : String → v.Settings → v.Settings
  locate path s =
      if str_eq path ""
      then v.add_config_path "." (
          v.add_config_path "$HOME/.conmon" (
            v.add_config_path "/etc/conmon"
              (v.set_config_type "yaml" (v.set_config_name "conmon" s))))
      else v.set_config_file path s

  -- The body of the loop of `expandEnvInViper`.
  unfoldable pub expand_key : String → v.Settings → v.Settings
  expand_key key s =
      let value = v.get_string key s in
      if str_eq (v.expand_env value) value then s else v.set key (v.expand_env value) s

  unfoldable pub expand_keys : List String → v.Settings → v.Settings
  unfolding expand_key
  expand_keys [] s = s
  expand_keys (key ∷ keys) s = expand_keys keys (expand_key key s)

  -- `expandEnvInViper`
  unfoldable pub expand_env_in_viper : v.Settings → v.Settings
  unfolding expand_keys
  expand_env_in_viper s = expand_keys (v.all_keys s) s

  -- What follows `Unmarshal`.
  abbrev pub checked : Config F → Option ConfigError → Loaded F
  checked cfg none = loaded cfg
  checked cfg (some e) = invalid e

  abbrev pub after_unmarshal : Unmarshalled F → Loaded F
  after_unmarshal (not_parsed msg) = not_unmarshalled msg
  after_unmarshal (parsed cfg) = checked cfg (validate cfg)

  -- What follows `ReadInConfig`; that there is no file is no error.
  abbrev pub after_read : v.Settings → Option ReadError → Loaded F
  after_read s (some (read_error msg)) = not_read msg
  after_read s (some file_not_found) = after_unmarshal (v.unmarshal (expand_env_in_viper s))
  after_read s none = after_unmarshal (v.unmarshal (expand_env_in_viper s))

  -- The settings before the file is read.
  unfoldable pub prepared : String → v.Settings
  unfolding set_defaults locate
  prepared path = v.automatic_env (
      v.replace_in_env_keys "." "_"
        (v.set_env_prefix "CONMON" (locate path (set_defaults v.new_settings))))

  -- `Load`
  unfoldable pub load : String → Loaded F
  unfolding prepared expand_env_in_viper validate
  load path = let (s, e) = v.read_in_config (prepared path) in after_read s e
