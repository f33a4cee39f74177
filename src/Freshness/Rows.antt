-- ===== src/Freshness/Rows.antt =====
-- The tables of iimc_trading_platform/services/freshness_service.py. Times are in microseconds,
-- ages and tolerances in seconds. Every table lists the newest row first.
use coversational_algo_tradi.Prelude.{Bool, List, Method, Option, String, ℕ, ℤ}

-- A row of `data_catalog`, with what the service reads of it.
pub record CatalogRow : Type 0 where
  pub dataset_id : String
  pub end_ts : Option ℕ
  pub quality_status : Option String
  pub row_count : Option ℤ

pub record FreshnessPolicy : Type 0 where
  pub purpose : String
  pub max_age_seconds : Option ℤ
  pub future_tolerance_seconds : ℤ
  pub accepted_quality : List String

-- A row of `dataset_freshness_policies`, with its accepted qualities read from their JSON.
pub record PolicyRow : Type 0 where
  pub policy_id : String
  pub dataset_id : String
  pub purpose : String
  pub max_age_seconds : Option ℤ
  pub future_tolerance_seconds : ℤ
  pub accepted_quality : List String
  pub enabled : Bool
  pub created_at : ℕ
  pub updated_at : ℕ

pub data FreshnessStatus : Type 0 where
  fresh stale rejected : FreshnessStatus

-- The texts of `reason`, with the values in them.
pub data Reason : Type 0 where
  satisfied no_coverage in_the_future closed_dataset : Reason
  quality_refused : Option String → Reason
  too_old : ℤ → ℤ → Reason

-- A row of `freshness_assessments`.
pub record AssessmentRow : Type 0 where
  pub assessment_id : String
  pub dataset_id : String
  pub purpose : String
  pub reference_time : ℕ
  pub dataset_end_ts : Option ℕ
  pub age_seconds : Option ℤ
  pub status : FreshnessStatus
  pub reason : Reason
  pub policy_id : String
  pub created_at : ℕ

-- The dictionary that `assess` returns.
pub record Assessment : Type 0 where
  pub assessment_id : String
  pub dataset_id : String
  pub purpose : String
  pub status : FreshnessStatus
  pub reason : Reason
  pub dataset_end_ts : Option ℕ
  pub reference_time : ℕ
  pub age_seconds : Option ℤ
  pub max_age_seconds : Option ℤ
  pub quality_status : Option String

pub record FreshnessStore : Type 0 where
  pub data_catalog : List CatalogRow
  pub policies : List PolicyRow
  pub assessments : List AssessmentRow

pub data FreshnessError : Type 0 where
  unsupported_purpose policy_disabled dataset_not_found constraint_violation : FreshnessError

abbrev pub FreshnessMethod : Type 0 → Type 0
FreshnessMethod A = Method FreshnessStore FreshnessError A

-- The new identifier and the readings of the clock, in the order of their use.
pub record Readings : Type 0 where
  pub policy_at : ℕ
  pub now : ℕ
  pub assessment_id : String
  pub created_at : ℕ
