-- ===== src/Api/Server/Serve/Completed.antt =====
-- What `handleCreateTarget` and `SaveTarget` make of a target, field by field.
use gi_con_mon.Common.{
  String, ◌≡◌, ◌≢◌, refl, true, arith, eq_iff, str_eq, str_append, if◌then◌else◌, ℤ, pos, negsuc,
  zero, suc,
}
use gi_con_mon.Model.{Time, FloatOps, Target, default_target}
use gi_con_mon.Storage.Store.{stamp_target}
use gi_con_mon.Api.Server.Targets.{complete, or_default}

-- A number, or a text, that is given or else the default.
abbrev pub GivenOr : {A : Type 0} → A → A → A → A → Type 0
GivenOr unset default given saved =
    (given ≡ unset → saved ≡ default) × (given ≢ unset → saved ≡ given)

text_or :
    (default given : String) → GivenOr "" default given (if str_eq given "" then default else given)
text_or default given = (λ e. rw ((eq_iff given "").1 e) refl, λ h. ground (arith, eq_iff given ""))

number_or : (default given : ℤ) → GivenOr (pos 0) default given (or_default given default)
number_or default given = (λ e. rw e refl, λ h. kept given h)
  where
    kept : (n : ℤ) → n ≢ pos 0 → or_default n default ≡ n
    kept (pos zero) h = absurd (h refl)
    kept (pos (suc n)) h = ground arith
    kept (negsuc n) h = ground arith

module _ {F : Type 0} ⦃fl : FloatOps F⦄ where
  -- What is saved of a target that is given: what it leaves open is 30 seconds, 5000 milliseconds, 3 retries
  -- and the priority "normal", under the fresh identifier; it is enabled, whatever is given, and stamped with
  -- the instant; all else is as given.
  pub record Completes (now : Time) (new_id : String) (given saved : Target F) : Type 0 where
    pub id_is : GivenOr "" (str_append "target-" new_id) given.id saved.id
    pub interval_is : GivenOr (pos 0) (pos 30) given.interval_sec saved.interval_sec
    pub timeout_is : GivenOr (pos 0) (pos 5000) given.timeout_ms saved.timeout_ms
    pub retries_is : GivenOr (pos 0) (pos 3) given.retries saved.retries
    pub priority_is : GivenOr "" "normal" given.priority saved.priority
    pub enabled_is : saved.enabled ≡ true
    pub created_is : GivenOr 0 now given.created_at saved.created_at
    pub updated_is : saved.updated_at ≡ now
    pub rest_is :
        record saved {
          id = given.id;
          interval_sec = given.interval_sec;
          timeout_ms = given.timeout_ms;
          retries = given.retries;
          priority = given.priority;
          enabled = given.enabled;
          created_at = given.created_at;
          updated_at = given.updated_at;
        }
        ≡ given

  pub complete-Completes :
      (now : Time) (new_id : String) (t : Target F)
      → Completes now new_id t (stamp_target now (complete new_id t))
  unfolding complete stamp_target default_target
  complete-Completes now new_id t = record {
    id_is = text_or (str_append "target-" new_id) t.id;
    interval_is = number_or (pos 30) t.interval_sec;
    timeout_is = number_or (pos 5000) t.timeout_ms;
    retries_is = number_or (pos 3) t.retries;
    priority_is = text_or "normal" t.priority;
    enabled_is = refl;
    created_is = (λ e. ground arith, λ h. ground arith);
    updated_is = refl;
    rest_is = refl;
  }
