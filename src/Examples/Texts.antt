-- ===== src/Examples/Texts.antt =====
-- A JSON library on texts that are the written values, which shows that the laws of Storage.Json can hold.
use gi_con_mon.Common.{
  String, ◌≡◌, refl, [], ◌∷◌, arith, ℕ, Option, none, List, true, some, Bool, if◌then◌else◌,
}
use gi_con_mon.Model.{AlertConfig, AnyMap, HookConfig, MaintenanceWindow}
use gi_con_mon.Storage.Json.{
  Codec, finite_config, finite_map, unset_config, writable_window, is_blank, Json, IsJson, IsCodec,
  view_map,
}
use gi_con_mon.Examples.Samples.{milli}

-- A text is the value that was written; the empty values are the text "null".
pub data Text : Type 0 where
  no_text null_text : Text
  strings_text : List String → Text
  config_text : AlertConfig ℕ → Text
  map_text : AnyMap ℕ → Text
  hooks_text : HookConfig → Text
  maintenance_text : MaintenanceWindow → Text

abbrev show : Text → String
show no_text = ""
show null_text = "null"
show _ = "text"

abbrev write_strings : List String → Text
write_strings [] = null_text
write_strings (x ∷ xs) = strings_text (x ∷ xs)

abbrev read_strings : Text → List String → List String
read_strings (strings_text xs) old = xs
read_strings _ old = old

abbrev read_config : Text → AlertConfig ℕ → AlertConfig ℕ
read_config (config_text a) old = a
read_config _ old = old

abbrev write_map : AnyMap ℕ → Text
write_map [] = null_text
write_map (entry ∷ m) = map_text (entry ∷ m)

abbrev read_map : Text → AnyMap ℕ → AnyMap ℕ
read_map (map_text m) old = view_map m
read_map _ old = old

abbrev write_hooks : Option HookConfig → Text
write_hooks none = null_text
write_hooks (some h) = hooks_text h

abbrev read_hooks : Text → Option HookConfig → Option HookConfig
read_hooks (hooks_text h) old = some h
read_hooks _ old = old

abbrev write_maintenance : Option MaintenanceWindow → Text
write_maintenance none = null_text
write_maintenance (some m) = maintenance_text m

abbrev read_maintenance : Text → Option MaintenanceWindow → Option MaintenanceWindow
read_maintenance (maintenance_text m) old = some m
read_maintenance _ old = old

-- What is refused is not written.
abbrev written : {A : Type 0} → (A → Bool) → (A → Text) → A → Option Text
written accepted write a = if accepted a then some (write a) else none

abbrev codec : {A : Type 0} → (A → Bool) → (A → Text) → (Text → A → A) → A → (A → A) → Codec Text A
codec accepted write read unset view = record {
  marshal = written accepted write;
  empty = no_text;
  decode = read;
  unset = unset;
  view = view;
}

abbrev pub plain_json : Json ℕ
plain_json = record {
  Text = Text;
  show = show;
  strings = codec (λ xs. true) write_strings read_strings [] (λ xs. xs);
  alert_config = codec (λ a. finite_config a) config_text read_config unset_config (λ a. a);
  any_map = codec (λ m. finite_map m) write_map read_map [] (λ m. view_map m);
  hooks = codec (λ h. true) write_hooks read_hooks none (λ h. h);
  maintenance = codec (λ m. writable_window m) write_maintenance read_maintenance none (λ m. m);
}

-- The laws of a codec, from what is read of a written text.
codec-IsCodec :
    {A : Type 0} (accepted : A → Bool) (write : A → Text) (read : Text → A → A) (unset : A)
    (view : A → A)
    → ((a : A) → read (write a) unset ≡ view a)
    → ((a : A) → is_blank show (write a) ≡ true → view a ≡ unset)
    → IsCodec show accepted (codec accepted write read unset view)
codec-IsCodec accepted write read unset view reads blank = record {
  show_empty = refl;
  refused = λ a bad. rw bad refl;
  decode-marshal = λ a good. (write a, rw good refl, reads a, blank a);
}

strings-IsCodec : IsCodec show (λ xs. true) plain_json.strings
strings-IsCodec = codec-IsCodec (λ xs. true) write_strings read_strings [] (λ xs. xs) reads blank
  where
    reads : (xs : List String) → read_strings (write_strings xs) [] ≡ xs
    reads [] = refl
    reads (x ∷ xs) = refl

    blank : (xs : List String) → is_blank show (write_strings xs) ≡ true → xs ≡ []
    blank [] h = refl
    blank (x ∷ xs) h = ground (arith, h)

any_map-IsCodec : IsCodec show (λ m. finite_map m) plain_json.any_map
unfolding view_map
any_map-IsCodec =
    codec-IsCodec (λ m. finite_map m) write_map read_map [] (λ m. view_map m) reads blank
  where
    reads : (m : AnyMap ℕ) → read_map (write_map m) [] ≡ view_map m
    reads [] = refl
    reads (entry ∷ m) = refl

    blank : (m : AnyMap ℕ) → is_blank show (write_map m) ≡ true → view_map m ≡ []
    blank [] h = refl
    blank (entry ∷ m) h = absurd (ground (arith, h))

hooks-IsCodec : IsCodec show (λ h. true) plain_json.hooks
hooks-IsCodec = codec-IsCodec (λ h. true) write_hooks read_hooks none (λ h. h) reads blank
  where
    reads : (h : Option HookConfig) → read_hooks (write_hooks h) none ≡ h
    reads none = refl
    reads (some h) = refl

    blank : (h : Option HookConfig) → is_blank show (write_hooks h) ≡ true → h ≡ none
    blank none e = refl
    blank (some h) e = ground (arith, e)

maintenance-IsCodec : IsCodec show (λ m. writable_window m) plain_json.maintenance
maintenance-IsCodec =
    codec-IsCodec (λ m. writable_window m) write_maintenance read_maintenance none (λ m. m) reads
      blank
  where
    reads : (m : Option MaintenanceWindow) → read_maintenance (write_maintenance m) none ≡ m
    reads none = refl
    reads (some m) = refl

    blank : (m : Option MaintenanceWindow) → is_blank show (write_maintenance m) ≡ true → m ≡ none
    blank none e = refl
    blank (some m) e = ground (arith, e)

pub plain_json-IsJson : IsJson plain_json
plain_json-IsJson = record {
  strings_lawful = strings-IsCodec;
  alert_config_lawful =
      codec-IsCodec (λ a. finite_config a) config_text read_config unset_config (λ a. a) (λ a. refl)
        (λ a h. absurd (ground (arith, h)));
  any_map_lawful = any_map-IsCodec;
  hooks_lawful = hooks-IsCodec;
  maintenance_lawful = maintenance-IsCodec;
  view_strings = λ xs. refl;
  view_alert_config = λ a. refl;
  view_any_map = λ m. refl;
  view_hooks = λ h. refl;
  view_maintenance = λ m. refl;
  unset_alert_config = refl;
  unset_any_map = refl;
  unset_maintenance = refl;
}
