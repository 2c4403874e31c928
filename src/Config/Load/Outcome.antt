-- ===== src/Config/Load/Outcome.antt =====
-- What `Load` returns, and what it expands.
use gi_con_mon.Common.{
  if◌then◌else◌, String, [], ◌∷◌, ◌≡◌, refl, ◌≢◌, Option, List, All, some, none, str_eq, ◌∙◌, arith,
  eq_iff, ap,
}
use gi_con_mon.Config.Load.{
  Viper, load, expand_keys, expand_key, Unmarshalled, Loaded, prepared, expand_env_in_viper, loaded,
  ReadError, after_read, parsed, after_unmarshal, not_parsed, read_error, checked, file_not_found,
}
use gi_con_mon.Config.Validate.{validate, validate-none, IsNamed, ConfigError}

module _ {F : Type 0} (v : Viper F) where
  -- A configuration that `Load` returns is what viper makes of the expanded settings, and it has an
  -- address to bind and only monitors with a name, a target and a protocol.
  abbrev pub IsSound : v.Settings → Loaded F → Type 0
  IsSound s (loaded cfg) =
      (v.unmarshal (expand_env_in_viper v s) ≡ parsed cfg)
      × (cfg.server.bind ≢ "")
      × All IsNamed cfg.monitors
  IsSound s _ = Unit

  unmarshalled-IsSound :
      (s : v.Settings) (u : Unmarshalled F)
      → v.unmarshal (expand_env_in_viper v s) ≡ u
      → IsSound s (after_unmarshal v u)
  unmarshalled-IsSound s (not_parsed msg) e = tt
  unmarshalled-IsSound s (parsed cfg) e = verdict (validate cfg) refl
    where
      verdict : (o : Option ConfigError) → validate cfg ≡ o → IsSound s (checked v cfg o)
      verdict none valid = let has = (validate-none cfg).0 valid in (e, has.0, has.1)
      verdict (some err) valid = tt

  read-IsSound : (s : v.Settings) (e : Option ReadError) → IsSound s (after_read v s e)
  read-IsSound s none = unmarshalled-IsSound s (v.unmarshal (expand_env_in_viper v s)) refl
  read-IsSound s (some file_not_found) =
      unmarshalled-IsSound s (v.unmarshal (expand_env_in_viper v s)) refl
  read-IsSound s (some (read_error msg)) = tt

  pub load-IsSound : (path : String) → IsSound (v.read_in_config (prepared v path)).0 (load v path)
  unfolding load
  load-IsSound path =
      read-IsSound (v.read_in_config (prepared v path)).0 (v.read_in_config (prepared v path)).1

-- What viper documents of `Set` and `GetString`.
pub record IsViper {F : Type 0} (v : Viper F) : Type 0 where
  pub get_string-set :
      (k j value : String) (s : v.Settings)
      → v.get_string j (v.set k value s) ≡ (if str_eq k j then value else v.get_string j s)

-- A key occurs among keys, and none does twice.
abbrev pub Fresh : String → List String → Type 0
Fresh k keys = All (λ j. k ≢ j) keys

module _ {F : Type 0} (v : Viper F) (lawful : IsViper v) where
  get_string-expand_key :
      (k j : String) (s : v.Settings)
      → v.get_string j (expand_key v k s)
        ≡ (if str_eq k j then v.expand_env (v.get_string j s) else v.get_string j s)
  unfolding expand_key
  get_string-expand_key k j s = grind (
    arith,
    eq_iff (v.expand_env (v.get_string k s)) (v.get_string k s),
    eq_iff k j,
    lawful.get_string-set k j (v.expand_env (v.get_string k s)) s,
  )

  expand_keys_other :
      (j : String) (keys : List String) (s : v.Settings)
      → Fresh j keys
      → v.get_string j (expand_keys v keys s) ≡ v.get_string j s
  unfolding expand_keys
  expand_keys_other j [] s fresh = refl
  expand_keys_other j (k ∷ keys) s fresh =
      expand_keys_other j keys (expand_key v k s) fresh.1
      ∙ ground (arith, get_string-expand_key k j s, eq_iff k j, fresh.0)

  -- The keys are pairwise different.
  abbrev pub AllFresh : List String → Type 0
  AllFresh [] = Unit
  AllFresh (k ∷ keys) = Fresh k keys × AllFresh keys

  -- Each key reads its old value, expanded once.
  abbrev pub Expanded : List String → v.Settings → v.Settings → Type 0
  Expanded keys s s' = All (λ j. v.get_string j s' ≡ v.expand_env (v.get_string j s)) keys

  Expanded-expand_key :
      (k : String) (keys : List String) (s s' : v.Settings)
      → Fresh k keys
      → Expanded keys (expand_key v k s) s'
      → Expanded keys s s'
  Expanded-expand_key k [] s s' fresh h = tt
  Expanded-expand_key k (j ∷ keys) s s' fresh h = (
    h.0 ∙ ap v.expand_env (ground (arith, get_string-expand_key k j s, eq_iff k j, fresh.0)),
    Expanded-expand_key k keys s s' fresh.1 h.1,
  )

  -- `expandEnvInViper` expands the value of every key once, if viper lists each key once and reads what
  -- was set.
  pub expand_keys-Expanded :
      (keys : List String) (s : v.Settings) → AllFresh keys → Expanded keys s (expand_keys v keys s)
  unfolding expand_keys
  expand_keys-Expanded [] s fresh = tt
  expand_keys-Expanded (k ∷ keys) s fresh = (
    expand_keys_other k keys (expand_key v k s) fresh.0
        ∙ ground (arith, get_string-expand_key k k s, eq_iff k k),
    Expanded-expand_key k keys s (expand_keys v keys (expand_key v k s)) fresh.0
        (expand_keys-Expanded keys (expand_key v k s) fresh.1),
  )
