-- ===== src/Fsm/Flap.antt =====
-- internal/fsm/flap.go: state changes of each target within a sliding window. The mutex makes each
-- method one step.
pub mod Log
pub mod Window
pub mod History
pub mod Pace
use gi_con_mon.Common.{
  String, none, some, List, [], ◌∷◌, ◌++◌, ℕ, if◌then◌else◌, length, Assoc, lookup, insert, delete,
}
use gi_con_mon.Model.{Time, Duration, before, add_neg}

pub record FlapTracker : Type 0 where
  pub history : Assoc (List Time)
  pub window : Duration

unfoldable pub new_flap_tracker : Duration → FlapTracker
new_flap_tracker window = record { history = []; window = window }

-- The loop of `trim`: skip the instants before the cutoff, up to the first that is not.
unfoldable pub skip_before : Time → List Time → List Time
skip_before cutoff [] = []
skip_before cutoff (t ∷ ts) = if before t cutoff then skip_before cutoff ts else t ∷ ts

unfoldable pub trim : FlapTracker → List Time → Time → List Time
trim ft ts now = skip_before (add_neg now ft.window) ts

-- `ft.history[targetID]`; a key that is missing reads as the nil slice.
unfoldable pub history_of : FlapTracker → String → List Time
history_of ft target_id = elim (lookup target_id ft.history) [ none ↦ [] | some ts ↦ ts ]

-- `Record`
unfoldable pub record_change : String → Time → FlapTracker → FlapTracker
record_change target_id t ft = record ft {
  history = insert target_id (trim ft (history_of ft target_id) t ++ t ∷ []) ft.history;
}

-- `Count`: the trimmed history is stored, and its length returned.
unfoldable pub count : String → Time → FlapTracker → FlapTracker × ℕ
count target_id now ft =
    let ts = trim ft (history_of ft target_id) now in
    (record ft { history = insert target_id ts ft.history }, length ts)

-- `Remove`
unfoldable pub remove : String → FlapTracker → FlapTracker
remove target_id ft = record ft { history = delete target_id ft.history }
