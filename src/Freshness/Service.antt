-- ===== src/Freshness/Service.antt =====
-- The methods of `FreshnessService` (iimc_trading_platform/services/freshness_service.py).
use Prim.Native.String.{◌++◌}
use coversational_algo_tradi.Freshness.Rows.{
  Assessment, AssessmentRow, CatalogRow, FreshnessMethod, FreshnessPolicy, FreshnessStatus,
  FreshnessStore, PolicyRow, Readings, Reason, closed_dataset, constraint_violation,
  dataset_not_found, fresh, in_the_future, no_coverage, policy_disabled, quality_refused, rejected,
  satisfied, stale, too_old, unsupported_purpose,
}
use coversational_algo_tradi.Prelude.{
  Bool, List, Option, String, [], any_row, false, first_row, get_or, gets, if◌then◌else◌, leb,
  ltb_ℤ, modify, none, or_raise, pos, pure, raise, some, str_eq, true, zero, ℕ, ℤ, ◌&&◌, ◌-ℤ◌, ◌-◌,
  ◌/◌, ◌>>=◌, ◌>>◌, ◌||◌, ◌∷◌,
}

abbrev pub default_quality : List String
default_quality = "clean" ∷ "clean_with_warnings" ∷ []

abbrev pub policy_with : String → Option ℤ → FreshnessPolicy
policy_with purpose max_age = record {
  purpose = purpose;
  max_age_seconds = max_age;
  future_tolerance_seconds = pos 300;
  accepted_quality = default_quality;
}

-- `DEFAULT_POLICIES`
abbrev pub default_policies : String → Option FreshnessPolicy
default_policies purpose =
    if str_eq purpose "historical_research"
    then some (policy_with purpose none)
    else if str_eq purpose "current_market"
    then some (policy_with purpose (some (pos 900)))
    else if str_eq purpose "broker_state"
    then some (policy_with purpose (some (pos 30)))
    else if str_eq purpose "reference"
    then some (policy_with purpose (some (pos 86400)))
    else none

-- `_policy_id`
unfoldable pub policy_id : String → String → String
policy_id dataset_id purpose = dataset_id ++ ":" ++ purpose

abbrev pub policy_row : String → String → FreshnessPolicy → ℕ → PolicyRow
policy_row dataset_id purpose default now = record {
  policy_id = policy_id dataset_id purpose;
  dataset_id = dataset_id;
  purpose = purpose;
  max_age_seconds = default.max_age_seconds;
  future_tolerance_seconds = default.future_tolerance_seconds;
  accepted_quality = default.accepted_quality;
  enabled = true;
  created_at = now;
  updated_at = now;
}

-- The two keys of a policy.
abbrev pub clashes : PolicyRow → PolicyRow → Bool
clashes new p =
    str_eq p.policy_id new.policy_id
    || (str_eq p.dataset_id new.dataset_id && str_eq p.purpose new.purpose)

abbrev pub put_policies : List PolicyRow → FreshnessStore → FreshnessStore
put_policies ps s = record s { policies = ps }

-- `INSERT OR IGNORE`
unfoldable pub insert_or_ignore : PolicyRow → FreshnessStore → FreshnessStore
insert_or_ignore new s =
    if any_row (clashes new) s.policies then s else put_policies (new ∷ s.policies) s

abbrev pub has_policy_id : String → PolicyRow → Bool
has_policy_id id p = str_eq p.policy_id id

abbrev pub is_enabled : String → PolicyRow → Bool
is_enabled id p = has_policy_id id p && p.enabled

abbrev pub policy_of : String → PolicyRow → FreshnessPolicy
policy_of purpose p = record {
  purpose = purpose;
  max_age_seconds = p.max_age_seconds;
  future_tolerance_seconds = p.future_tolerance_seconds;
  accepted_quality = p.accepted_quality;
}

-- `_ensure_policy`
unfoldable pub ensure_policy : String → String → ℕ → FreshnessMethod FreshnessPolicy
unfolding policy_id insert_or_ignore
ensure_policy dataset_id purpose now = do
  default ← or_raise (default_policies purpose) unsupported_purpose
  modify (insert_or_ignore (policy_row dataset_id purpose default now))
  found ← gets (λ s. first_row (is_enabled (policy_id dataset_id purpose)) s.policies)
  row ← or_raise found policy_disabled
  pure (policy_of purpose row)

-- `int((now - end_ts).total_seconds())`, rounded towards zero
unfoldable pub age_between : ℕ → ℕ → ℤ
unfolding ◌-ℤ◌
age_between now end =
    if leb end now then pos ((now - end) / 1000000) else pos 0 -ℤ pos ((end - now) / 1000000)

pub record Verdict : Type 0 where
  pub status : FreshnessStatus
  pub reason : Reason
  pub age_seconds : Option ℤ

abbrev pub is_accepted : List String → Option String → Bool
is_accepted accepted none = false
is_accepted accepted (some q) = any_row (str_eq q) accepted

abbrev pub has_rows : Option ℤ → Bool
has_rows none = false
has_rows (some (pos zero)) = false
has_rows (some n) = true

abbrev pub recent : String → ℤ → Verdict
recent purpose age = record {
  status = fresh;
  reason = if str_eq purpose "historical_research" then closed_dataset else satisfied;
  age_seconds = some age;
}

abbrev pub judge_age : String → Option ℤ → ℤ → Verdict
judge_age purpose none age = recent purpose age
judge_age purpose (some limit) age =
    if ltb_ℤ limit age
    then record { status = stale; reason = too_old age limit; age_seconds = some age }
    else recent purpose age

abbrev pub judge_covered : FreshnessPolicy → String → ℕ → ℕ → Verdict
judge_covered p purpose now end =
    let age = age_between now end in
    if ltb_ℤ age (pos 0 -ℤ p.future_tolerance_seconds)
    then record { status = rejected; reason = in_the_future; age_seconds = some age }
    else judge_age purpose p.max_age_seconds age

abbrev pub without_age : Reason → Verdict
without_age r = record { status = rejected; reason = r; age_seconds = none }

abbrev pub judge_coverage : FreshnessPolicy → String → ℕ → Bool → Option ℕ → Verdict
judge_coverage p purpose now false end_ts = without_age no_coverage
judge_coverage p purpose now true none = without_age no_coverage
judge_coverage p purpose now true (some end) = judge_covered p purpose now end

unfoldable pub judge : FreshnessPolicy → String → ℕ → CatalogRow → Verdict
unfolding age_between ◌-ℤ◌
judge p purpose now d =
    if is_accepted p.accepted_quality d.quality_status
    then judge_coverage p purpose now (has_rows d.row_count) d.end_ts
    else without_age (quality_refused d.quality_status)

abbrev pub assessment_row : String → String → ℕ → CatalogRow → Verdict → Readings → AssessmentRow
assessment_row dataset_id purpose now d v m = record {
  assessment_id = m.assessment_id;
  dataset_id = dataset_id;
  purpose = purpose;
  reference_time = now;
  dataset_end_ts = d.end_ts;
  age_seconds = v.age_seconds;
  status = v.status;
  reason = v.reason;
  policy_id = policy_id dataset_id purpose;
  created_at = m.created_at;
}

abbrev pub assessment_of :
    String → String → ℕ → CatalogRow → FreshnessPolicy → Verdict → Readings → Assessment
assessment_of dataset_id purpose now d p v m = record {
  assessment_id = m.assessment_id;
  dataset_id = dataset_id;
  purpose = purpose;
  status = v.status;
  reason = v.reason;
  dataset_end_ts = d.end_ts;
  reference_time = now;
  age_seconds = v.age_seconds;
  max_age_seconds = p.max_age_seconds;
  quality_status = d.quality_status;
}

abbrev pub has_assessment_id : String → AssessmentRow → Bool
has_assessment_id id a = str_eq a.assessment_id id

unfoldable pub insert_assessment : AssessmentRow → FreshnessMethod (Unit {0})
insert_assessment a s =
    if any_row (has_assessment_id a.assessment_id) s.assessments
    then raise constraint_violation s
    else modify (λ t. record t { assessments = a ∷ t.assessments }) s

abbrev pub has_dataset_id : String → CatalogRow → Bool
has_dataset_id id d = str_eq d.dataset_id id

-- The part of `assess` after the reads.
unfoldable pub conclude :
    String → String → ℕ → FreshnessPolicy → CatalogRow → Readings → FreshnessMethod Assessment
unfolding judge policy_id insert_assessment
conclude dataset_id purpose now p d m = do
  let v = judge p purpose now d
  insert_assessment (assessment_row dataset_id purpose now d v m)
  pure (assessment_of dataset_id purpose now d p v m)

unfoldable pub assess : String → String → Option ℕ → Readings → FreshnessMethod Assessment
unfolding ensure_policy conclude
assess dataset_id purpose reference_time m = do
  policy ← ensure_policy dataset_id purpose m.policy_at
  found ← gets (λ s. first_row (has_dataset_id dataset_id) s.data_catalog)
  row ← or_raise found dataset_not_found
  conclude dataset_id purpose (get_or reference_time m.now) policy row m
