-- ===== src/Freshness/Verdicts.antt =====
-- About the verdicts of `FreshnessService.assess`, and what it writes.
use coversational_algo_tradi.Freshness.Rows.{
  Assessment, CatalogRow, FreshnessPolicy, FreshnessStore, PolicyRow, Readings, dataset_not_found,
  fresh, policy_disabled, rejected, stale, unsupported_purpose,
}
use coversational_algo_tradi.Freshness.Service.{
  age_between, assess, assessment_of, assessment_row, clashes, conclude, default_policies,
  ensure_policy, has_assessment_id, has_dataset_id, has_rows, insert_assessment, insert_or_ignore,
  is_accepted, is_enabled, judge, judge_age, judge_coverage, judge_covered, policy_id, policy_of,
  policy_row,
}
use coversational_algo_tradi.Prelude.{
  Bool, Bool-cases, Option, Returned, Returned-bind, Returned-map, Returned-or_raise, String,
  any_row, ap, arith, false, first_row, get_or, inl, inr, leb, ltb_ℤ, negations, none, pos,
  pos_part, refl, some, true, ℕ, ℤ, ◌*◌, ◌+◌, ◌-ℤ◌, ◌-◌, ◌/◌, ◌<◌, ◌∷◌, ◌≡◌, ◌≤◌,
}

remainder_bound : (n m : ℕ) → n / 1000000 ≤ m → n < (m + 1) * 1000000
remainder_bound n m h = omega arith

-- The age at a reference time, from its whole seconds.
not_too_old :
    (now end : ℕ) (limit : ℤ)
    → ltb_ℤ limit (age_between now end) ≡ false
    → now < end + (pos_part limit + 1) * 1000000
unfolding age_between ◌-ℤ◌
not_too_old now end limit h = elim (Bool-cases (leb end now)) [
  | inl past ↦
      let small : (now - end) / 1000000 ≤ pos_part limit = ground (arith, (rw past at h)) in
      let close = remainder_bound (now - end) (pos_part limit) small in
      let order : end ≤ now = ground arith in omega arith
  | inr future ↦ ground arith
]

not_too_early :
    (now end : ℕ) (tolerance : ℤ)
    → ltb_ℤ (age_between now end) (pos 0 -ℤ tolerance) ≡ false
    → end < now + (pos_part tolerance + 1) * 1000000
unfolding age_between
not_too_early now end tolerance h = elim (Bool-cases (leb end now)) [
  | inl past ↦ let order : end ≤ now = ground arith in omega arith
  | inr future ↦
      let small = negations ((end - now) / 1000000) tolerance (rw future at h) in
      let close = remainder_bound (end - now) (pos_part tolerance) small in omega arith
]

-- The time of the data is not older than a limit allows, up to the second that the age leaves off.
abbrev pub IsWithin : Option ℤ → ℕ → ℕ → Type 0
IsWithin none now end = Unit
IsWithin (some limit) now end = now < end + (pos_part limit + 1) * 1000000

-- What is true of a dataset that a policy calls fresh.
pub record IsUsable (p : FreshnessPolicy) (now : ℕ) (d : CatalogRow) (age : Option ℤ) : Type 0 where
  pub accepted : is_accepted p.accepted_quality d.quality_status ≡ true
  pub covered : has_rows d.row_count ≡ true
  pub timed :
      (end : ℕ) × (d.end_ts ≡ some end)
      × (age ≡ some (age_between now end))
      × (end < now + (pos_part p.future_tolerance_seconds + 1) * 1000000)
      × IsWithin p.max_age_seconds now end

judge_age-fresh :
    (purpose : String) (limit : Option ℤ) (now end : ℕ)
    → (judge_age purpose limit (age_between now end)).status ≡ fresh
    → IsWithin limit now end
      × ((judge_age purpose limit (age_between now end)).age_seconds ≡ some (age_between now end))
judge_age-fresh purpose none now end h = (tt, refl)
judge_age-fresh purpose (some limit) now end h =
    elim (Bool-cases (ltb_ℤ limit (age_between now end))) [
      | inl old ↦ absurd (let bad : stale ≡ fresh = rw old at h in cc)
      | inr recent_enough ↦ (not_too_old now end limit recent_enough, rw recent_enough refl)
    ]

judge_covered-fresh :
    (p : FreshnessPolicy) (purpose : String) (now end : ℕ)
    → (judge_covered p purpose now end).status ≡ fresh
    → (end < now + (pos_part p.future_tolerance_seconds + 1) * 1000000)
      × IsWithin p.max_age_seconds now end
      × ((judge_covered p purpose now end).age_seconds ≡ some (age_between now end))
judge_covered-fresh p purpose now end h =
    elim (Bool-cases (ltb_ℤ (age_between now end) (pos 0 -ℤ p.future_tolerance_seconds))) [
      | inl early ↦ absurd (let bad : rejected ≡ fresh = rw early at h in cc)
      | inr in_time ↦
          let (within, age) = judge_age-fresh purpose p.max_age_seconds now end (rw in_time at h) in
          (not_too_early now end p.future_tolerance_seconds in_time, within, rw in_time age)
    ]

judge_coverage-fresh :
    (p : FreshnessPolicy) (purpose : String) (now : ℕ) (d : CatalogRow) (rows : Bool)
    (end_ts : Option ℕ)
    → is_accepted p.accepted_quality d.quality_status ≡ true
    → has_rows d.row_count ≡ rows
    → d.end_ts ≡ end_ts
    → (judge_coverage p purpose now rows end_ts).status ≡ fresh
    → IsUsable p now d (judge_coverage p purpose now rows end_ts).age_seconds
judge_coverage-fresh p purpose now d false end_ts good e e' h =
    absurd (let bad : rejected ≡ fresh = h in cc)
judge_coverage-fresh p purpose now d true none good e e' h =
    absurd (let bad : rejected ≡ fresh = h in cc)
judge_coverage-fresh p purpose now d true (some end) good e e' h =
    let (early, within, age) = judge_covered-fresh p purpose now end h in
    record { accepted = good; covered = e; timed = (end, e', age, early, within) }

pub judge-IsUsable :
    (p : FreshnessPolicy) (purpose : String) (now : ℕ) (d : CatalogRow)
    → (judge p purpose now d).status ≡ fresh
    → IsUsable p now d (judge p purpose now d).age_seconds
unfolding judge
judge-IsUsable p purpose now d h =
    elim (Bool-cases (is_accepted p.accepted_quality d.quality_status)) [
      | inr refused ↦ absurd (let bad : rejected ≡ fresh = rw refused at h in cc)
      | inl good ↦ rw good (
          judge_coverage-fresh p purpose now d (has_rows d.row_count) d.end_ts good refl refl
            (rw good at h))
    ]

insert_or_ignore-others :
    (new : PolicyRow) (s : FreshnessStore)
    → ((insert_or_ignore new s).assessments ≡ s.assessments)
      × ((insert_or_ignore new s).data_catalog ≡ s.data_catalog)
unfolding insert_or_ignore
insert_or_ignore-others new s = elim (Bool-cases (any_row (clashes new) s.policies)) [
  | inl clash ↦ rw clash (refl, refl)
  | inr free ↦ rw free (refl, refl)
]

module _ (dataset_id purpose : String) (s : FreshnessStore) where
  -- The policy that a call goes by is the enabled row of the store that it leaves.
  Goes : FreshnessPolicy → FreshnessStore → Type 0
  Goes p t =
      (row : PolicyRow) × (first_row (is_enabled (policy_id dataset_id purpose)) t.policies
        ≡ some row)
      × (p ≡ policy_of purpose row)
      × (t.assessments ≡ s.assessments)
      × (t.data_catalog ≡ s.data_catalog)

  ensure_policy-Goes : (now : ℕ) → Returned Goes (ensure_policy dataset_id purpose now s)
  unfolding ensure_policy Goes
  ensure_policy-Goes now =
      Returned-or_raise Goes (default_policies purpose) unsupported_purpose _ s (λ default e.
        let t = insert_or_ignore (policy_row dataset_id purpose default now) s in
        let others = insert_or_ignore-others (policy_row dataset_id purpose default now) s in
        Returned-or_raise Goes (first_row (is_enabled (policy_id dataset_id purpose)) t.policies)
          policy_disabled _ t (λ row found. (row, found, refl, others.0, others.1)))

  -- What a call that returns has read, returned and put on record.
  pub record HasConcluded (now : ℕ) (m : Readings) (a : Assessment) (t : FreshnessStore)
      : Type 0 where
    pub row : PolicyRow
    pub dataset : CatalogRow
    pub enabled : first_row (is_enabled (policy_id dataset_id purpose)) t.policies ≡ some row
    pub found : first_row (has_dataset_id dataset_id) s.data_catalog ≡ some dataset
    pub returned :
        a
        ≡ assessment_of dataset_id purpose now dataset
            (policy_of purpose row)
            (judge (policy_of purpose row) purpose now dataset)
            m
    pub filed :
        t.assessments
        ≡ assessment_row dataset_id purpose now dataset
            (judge (policy_of purpose row) purpose now dataset)
            m
          ∷ s.assessments
    pub catalog : t.data_catalog ≡ s.data_catalog

  conclude-HasConcluded :
      (now : ℕ) (m : Readings) (p : FreshnessPolicy) (d : CatalogRow) (t : FreshnessStore)
      → Goes p t
      → first_row (has_dataset_id dataset_id) t.data_catalog ≡ some d
      → Returned (HasConcluded now m) (conclude dataset_id purpose now p d m t)
  unfolding conclude insert_assessment Goes
  conclude-HasConcluded now m p d t (row, enabled, by, filed, catalog) found =
      elim (Bool-cases (any_row (has_assessment_id m.assessment_id) t.assessments)) [
        | inl clash ↦ rw clash tt
        | inr fresh_id ↦ rw fresh_id (record {
          row = row;
          dataset = d;
          enabled = enabled;
          found = rw catalog at found;
          returned =
              ap (λ q. assessment_of dataset_id purpose now d q (judge q purpose now d) m) by;
          filed = rw (by, filed) refl;
          catalog = catalog;
        })
      ]

  pub assess-Returned :
      (reference_time : Option ℕ) (m : Readings)
      → Returned
          (HasConcluded (get_or reference_time m.now) m)
          (assess dataset_id purpose reference_time m s)
  unfolding assess
  assess-Returned reference_time m =
      let now = get_or reference_time m.now in
      Returned-bind (HasConcluded now m) _ (ensure_policy dataset_id purpose m.policy_at) s (
        Returned-map (ensure_policy dataset_id purpose m.policy_at s)
          (λ p t goes.
            Returned-or_raise (HasConcluded now m)
              (first_row (has_dataset_id dataset_id) t.data_catalog) dataset_not_found _ t
              (λ d found. conclude-HasConcluded now m p d t goes found))
          (ensure_policy-Goes m.policy_at))
