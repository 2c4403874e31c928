-- ===== src/Storage/Json.antt =====
-- encoding/json, an argument of the storage, for the types that internal/storage/sqlite/sqlite.go puts
-- into text columns; and its `toJSON` and `fromJSON`.
use gi_con_mon.Common.{
  arith, ◌&&◌, ◌*◌, false, pos, refl, ◌∙◌, str_eq, ◌||◌, String, ◌≡◌, Bool, true, Option, none,
  some, List, [], ◌∷◌, ℤ, if◌then◌else◌, Bool-cases, inl, inr, sym,
}
use gi_con_mon.Model.{
  Time, before, FloatOps, AlertConfig, HookConfig, MaintenanceWindow, Any, Anys, Fields, AnyMap,
  null, bool, int, float, str, ints, slice, object, nil, cons, end, field,
}

-- `Marshal` of a type, which is `none` where it fails, and what `Unmarshal` makes of a variable of it,
-- which keeps its value where the text is not understood. `empty` is the text of no bytes, `unset` the
-- zero value, and `view` what is left of a value behind both.
pub record Codec (Text A : Type 0) : Type 0 where
  pub marshal : A → Option Text
  pub empty : Text
  pub decode : Text → A → A
  pub unset : A
  pub view : A → A

-- `toJSON`: the error of `Marshal` is dropped, and its bytes are nil. No caller passes a nil interface.
unfoldable pub to_json : {Text A : Type 0} → Codec Text A → A → Text
to_json c a = elim (c.marshal a) [ none ↦ c.empty | some text ↦ text ]

module _ {F : Type 0} ⦃fl : FloatOps F⦄ where
  -- Numbers of any kind become `float64`, and slices of any kind `[]any`.
  abbrev pub float_all : List ℤ → Anys F
  float_all [] = nil
  float_all (n ∷ ns) = cons (float (fl.of_int n)) (float_all ns)

  unfoldable mutual
    pub view_any : Any F → Any F
    view_any (int n) = float (fl.of_int n)
    view_any (ints ns) = slice (float_all ns)
    view_any (slice vs) = slice (view_anys vs)
    view_any (object fs) = object (view_fields fs)
    view_any null = null
    view_any (bool b) = bool b
    view_any (float x) = float x
    view_any (str s) = str s

    pub view_anys : Anys F → Anys F
    view_anys nil = nil
    view_anys (cons v vs) = cons (view_any v) (view_anys vs)

    pub view_fields : Fields F → Fields F
    view_fields end = end
    view_fields (field k v fs) = field k (view_any v) (view_fields fs)

  unfoldable pub view_map : AnyMap F → AnyMap F
  unfolding view_any
  view_map [] = []
  view_map ((k, v) ∷ m) = (k, view_any v) ∷ view_map m

  -- `Marshal` refuses NaN and the infinities, wherever they stand in a value.
  unfoldable mutual
    pub finite_any : Any F → Bool
    finite_any (float x) = fl.finite x
    finite_any (slice vs) = finite_anys vs
    finite_any (object fs) = finite_fields fs
    finite_any null = true
    finite_any (bool b) = true
    finite_any (int n) = true
    finite_any (str s) = true
    finite_any (ints ns) = true

    pub finite_anys : Anys F → Bool
    finite_anys nil = true
    finite_anys (cons v vs) = finite_any v && finite_anys vs

    pub finite_fields : Fields F → Bool
    finite_fields end = true
    finite_fields (field k v fs) = finite_any v && finite_fields fs

  unfoldable pub finite_map : AnyMap F → Bool
  unfolding finite_any
  finite_map [] = true
  finite_map ((k, v) ∷ m) = finite_any v && finite_map m

  -- The zero value of the thresholds.
  abbrev pub unset_config : AlertConfig F
  unset_config = record {
    down_threshold = pos 0;
    recovery_threshold = pos 0;
    latency_warn_ms = pos 0;
    packet_loss_warn_pct = fl.zero;
    alert_channels = [];
    cert_warn_days = pos 0;
  }

  abbrev pub finite_config : AlertConfig F → Bool
  finite_config a = fl.finite a.packet_loss_warn_pct

  -- What a map and the thresholds of a target are behind `toJSON` and `fromJSON`.
  unfoldable pub stored_map : AnyMap F → AnyMap F
  stored_map m = if finite_map m then view_map m else []

  unfoldable pub stored_config : AlertConfig F → AlertConfig F
  stored_config a = if finite_config a then a else unset_config

  abbrev pub viewed : Option (Any F) → Option (Any F)
  viewed none = none
  viewed (some v) = some (view_any v)

-- The first instant of the year 10000; `Marshal` refuses an instant from there on.
abbrev pub year_10000 : Time
year_10000 = 3_652_059 * 86_400_000_000_000

abbrev pub writable_window : Option MaintenanceWindow → Bool
writable_window none = true
writable_window (some m) = before m.start year_10000 && before m.end year_10000

unfoldable pub stored_window : Option MaintenanceWindow → Option MaintenanceWindow
stored_window m = if writable_window m then m else none

-- `s == "" || s == "null"`
abbrev pub is_blank : {Text : Type 0} → (Text → String) → Text → Bool
is_blank show text = str_eq (show text) "" || str_eq (show text) "null"

-- The library at the types of the columns; `show` is a column as a string.
pub record Json (F : Type 0) : Type 1 where
  pub Text : Type 0
  pub show : Text → String
  pub strings : Codec Text (List String)
  pub alert_config : Codec Text (AlertConfig F)
  pub any_map : Codec Text (AnyMap F)
  pub hooks : Codec Text (Option HookConfig)
  pub maintenance : Codec Text (Option MaintenanceWindow)

-- What the library documents of a type. `Marshal` fails where a value is not accepted. A value that it
-- writes, and that is read into a zero variable, is the view of what was written; the text "null" stands
-- for the zero value only.
pub record IsCodec {Text A : Type 0} (show : Text → String) (accepted : A → Bool) (c : Codec Text A)
    : Type 0 where
  pub show_empty : show c.empty ≡ ""
  pub refused : (a : A) → accepted a ≡ false → c.marshal a ≡ none
  pub decode-marshal :
      (a : A)
      → accepted a ≡ true
      → (text : Text) × (c.marshal a ≡ some text)
        × (c.decode text c.unset ≡ c.view a)
        × (is_blank show text ≡ true → c.view a ≡ c.unset)

-- What it documents of these types: the maps lose the kinds of their numbers, all else that is accepted
-- comes back as it was.
pub record IsJson {F : Type 0} ⦃fl : FloatOps F⦄ (J : Json F) : Type 0 where
  pub strings_lawful : IsCodec J.show (λ xs. true) J.strings
  pub alert_config_lawful : IsCodec J.show (λ a. finite_config a) J.alert_config
  pub any_map_lawful : IsCodec J.show (λ m. finite_map m) J.any_map
  pub hooks_lawful : IsCodec J.show (λ h. true) J.hooks
  pub maintenance_lawful : IsCodec J.show (λ m. writable_window m) J.maintenance
  pub view_strings : (xs : List String) → J.strings.view xs ≡ xs
  pub view_alert_config : (a : AlertConfig F) → J.alert_config.view a ≡ a
  pub view_any_map : (m : AnyMap F) → J.any_map.view m ≡ view_map m
  pub view_hooks : (h : Option HookConfig) → J.hooks.view h ≡ h
  pub view_maintenance : (m : Option MaintenanceWindow) → J.maintenance.view m ≡ m
  pub unset_alert_config : J.alert_config.unset ≡ unset_config
  pub unset_any_map : J.any_map.unset ≡ []
  pub unset_maintenance : J.maintenance.unset ≡ none

module _ {Text A : Type 0} (show : Text → String) (c : Codec Text A) where
  -- `fromJSON`
  unfoldable pub from_json : Text → A → A
  from_json text v = if is_blank show text then v else c.decode text v

  -- A pointer's column, which is read only if it is not blank.
  unfoldable pub guarded : Text → A
  unfolding from_json
  guarded text = if is_blank show text then c.unset else from_json text c.unset

  guarded_lem : (text : Text) → guarded text ≡ from_json text c.unset
  unfolding guarded
  guarded_lem text = ground arith

  from_json-written :
      (text : Text) (v : A)
      → c.decode text c.unset ≡ v
      → (is_blank show text ≡ true → v ≡ c.unset)
      → from_json text c.unset ≡ v
  unfolding from_json
  from_json-written text v reads blank = elim (Bool-cases (is_blank show text)) [
    | inl is ↦ rw is (sym (blank is))
    | inr written ↦ rw written reads
  ]

  from_json-empty : show c.empty ≡ "" → from_json c.empty c.unset ≡ c.unset
  unfolding from_json
  from_json-empty e = rw e refl

  -- A column that was written by `toJSON` is read back as the view of the value, or as the zero value
  -- if `Marshal` refuses it.
  pub from_json-to_json :
      {accepted : A → Bool}
      → IsCodec show accepted c
      → (a : A) → from_json (to_json c a) c.unset ≡ (if accepted a then c.view a else c.unset)
  unfolding to_json
  from_json-to_json {accepted} lawful a = elim (Bool-cases (accepted a)) [
    | inl good ↦
        let (text, written, reads, blank) = lawful.decode-marshal a good in
        rw (good, written, to_json) (from_json-written text (c.view a) reads blank)
    | inr bad ↦ rw (bad, lawful.refused a bad, to_json) (from_json-empty lawful.show_empty)
  ]

  pub guarded-to_json :
      {accepted : A → Bool}
      → IsCodec show accepted c
      → (a : A) → guarded (to_json c a) ≡ (if accepted a then c.view a else c.unset)
  guarded-to_json lawful a = guarded_lem (to_json c a) ∙ from_json-to_json lawful a
