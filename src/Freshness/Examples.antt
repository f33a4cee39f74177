-- ===== src/Freshness/Examples.antt =====
-- Runs of the freshness service on concrete inputs: market data of five minutes ago, under a policy
-- that an operator has set.
use coversational_algo_tradi.Freshness.Rows.{
  Assessment, CatalogRow, FreshnessStore, PolicyRow, Readings, dataset_not_found, fresh, satisfied,
}
use coversational_algo_tradi.Freshness.Service.{
  age_between, assess, conclude, ensure_policy, has_dataset_id, has_policy_id, insert_assessment,
  insert_or_ignore, is_enabled, judge, policy_id, policy_of, policy_row, policy_with, put_policies,
}
use coversational_algo_tradi.Freshness.Verdicts.{IsUsable}
use coversational_algo_tradi.Freshness.Assessments.{
  IsFiled, assess-IsFiled, fresh-IsUsable, policy_stays, unknown_dataset_leaves_policy,
}
use coversational_algo_tradi.Prelude.{
  [], err, first_row, none, ok, pos, refl, some, true, ◌-ℤ◌, ◌∷◌, ◌≡◌,
}

abbrev quotes : CatalogRow
quotes = record {
  dataset_id = "quotes";
  end_ts = some 700000000;
  quality_status = some "clean";
  row_count = some (pos 10);
}

abbrev strict : PolicyRow
strict = record {
  policy_id = "quotes:current_market";
  dataset_id = "quotes";
  purpose = "current_market";
  max_age_seconds = some (pos 600);
  future_tolerance_seconds = pos 5;
  accepted_quality = "clean" ∷ [];
  enabled = true;
  created_at = 1;
  updated_at = 2;
}

abbrev store : FreshnessStore
store = record { data_catalog = quotes ∷ []; policies = strict ∷ []; assessments = [] }

abbrev readings : Readings
readings = record {
  policy_at = 900;
  now = 1000000000;
  assessment_id = "f1";
  created_at = 1000000001;
}

abbrev assessed : Assessment
assessed = record {
  assessment_id = "f1";
  dataset_id = "quotes";
  purpose = "current_market";
  status = fresh;
  reason = satisfied;
  dataset_end_ts = some 700000000;
  reference_time = 1000000000;
  age_seconds = some (pos 300);
  max_age_seconds = some (pos 600);
  quality_status = some "clean";
}

abbrev after_assess : FreshnessStore
after_assess = (assess "quotes" "current_market" none readings store).1

runs : assess "quotes" "current_market" none readings store ≡ (ok assessed, after_assess)
unfolding assess ensure_policy policy_id insert_or_ignore conclude judge age_between ◌-ℤ◌
    insert_assessment
runs = refl

assess-IsFiled_example : IsFiled "quotes" "current_market" 1000000000 store assessed after_assess
assess-IsFiled_example =
    assess-IsFiled "quotes" "current_market" none readings store {a = assessed} {s' = after_assess}
      runs

fresh-IsUsable_example :
    (row : PolicyRow) × (d : CatalogRow) × (first_row
        (is_enabled (policy_id "quotes" "current_market"))
        after_assess.policies
      ≡ some row)
    × (first_row (has_dataset_id "quotes") (quotes ∷ []) ≡ some d)
    × IsUsable (policy_of "current_market" row) 1000000000 d (some (pos 300))
fresh-IsUsable_example =
    fresh-IsUsable "quotes" "current_market" none readings store {a = assessed} {s' = after_assess}
      runs refl

unknown_dataset_leaves_policy_example : assess "trades" "reference" none readings store ≡ (
  err dataset_not_found,
  put_policies
      (policy_row "trades" "reference" (policy_with "reference" (some (pos 86400))) 900
        ∷ strict
        ∷ [])
      store,
)
unfolding policy_id
unknown_dataset_leaves_policy_example =
    unknown_dataset_leaves_policy "trades" "reference" none readings store
      {default = policy_with "reference" (some (pos 86400))} refl refl refl

policy_stays_example :
    first_row
      (has_policy_id "quotes:current_market")
      (assess "quotes" "current_market" none readings store).1.policies
    ≡ some strict
policy_stays_example =
    policy_stays "quotes:current_market" strict "quotes" "current_market" none readings store refl
