-- ===== src/Freshness/Assessments.antt =====
-- About the calls of `FreshnessService.assess`: what they return, what they write, and what they leave.
use coversational_algo_tradi.Freshness.Rows.{
  Assessment, AssessmentRow, CatalogRow, FreshnessPolicy, FreshnessStore, PolicyRow, Readings,
  dataset_not_found, fresh,
}
use coversational_algo_tradi.Freshness.Service.{
  assess, assessment_row, clashes, conclude, default_policies, ensure_policy, has_assessment_id,
  has_dataset_id, has_policy_id, insert_assessment, insert_or_ignore, is_enabled, judge, policy_id,
  policy_of, policy_row, put_policies,
}
use coversational_algo_tradi.Freshness.Verdicts.{
  HasConcluded, IsUsable, assess-Returned, judge-IsUsable,
}
use coversational_algo_tradi.Prelude.{
  All-first_row, Bool-cases, Keeps, Keeps-bind, Keeps-or_raise, Option, Option-cases, String,
  any_row, any_row-none, ap, both_true, eq_iff, eq_refl, err, false, first_row, first_row-passes,
  get_or, inl, inr, none, of_returned, ok, or_raise, refl, some, str_eq, subst, sym, true, ℕ, ◌&&◌,
  ◌∙◌, ◌∷◌, ◌≡◌,
}

assess_concluded :
    (dataset_id purpose : String) (reference_time : Option ℕ) (m : Readings) (s : FreshnessStore)
    {a : Assessment} {s' : FreshnessStore}
    → assess dataset_id purpose reference_time m s ≡ (ok a, s')
    → HasConcluded dataset_id purpose s (get_or reference_time m.now) m a s'
assess_concluded dataset_id purpose reference_time m s ran =
    of_returned (HasConcluded dataset_id purpose s (get_or reference_time m.now) m) ran
      (assess-Returned dataset_id purpose s reference_time m)

-- What is returned, what is put on record, and what both come from.
pub record IsFiled (dataset_id purpose : String) (now : ℕ) (s : FreshnessStore) (a : Assessment)
    (t : FreshnessStore) : Type 0 where
  pub filed : AssessmentRow
  pub policy : PolicyRow
  pub dataset : CatalogRow
  pub added : t.assessments ≡ filed ∷ s.assessments
  pub catalog : t.data_catalog ≡ s.data_catalog
  pub ids : (filed.assessment_id ≡ a.assessment_id) × (filed.policy_id ≡ policy.policy_id)
  pub of_dataset : (filed.dataset_id ≡ dataset_id) × (a.dataset_id ≡ dataset_id)
  pub of_purpose : (filed.purpose ≡ purpose) × (a.purpose ≡ purpose)
  pub at_time : (filed.reference_time ≡ now) × (a.reference_time ≡ now)
  pub verdict : (filed.status ≡ a.status) × (filed.reason ≡ a.reason)
  pub age : filed.age_seconds ≡ a.age_seconds
  pub end : (filed.dataset_end_ts ≡ dataset.end_ts) × (a.dataset_end_ts ≡ dataset.end_ts)
  pub quality : a.quality_status ≡ dataset.quality_status
  pub limit : a.max_age_seconds ≡ policy.max_age_seconds
  pub read : (dataset.dataset_id ≡ dataset_id) × (policy.enabled ≡ true)
  pub stored :
      first_row (λ p. str_eq p.policy_id filed.policy_id && p.enabled) t.policies ≡ some policy

-- A call that returns has added one assessment and left the catalog as it was. The row has the
-- identifier, the dataset, the purpose, the reference time, the status, the reason, the age and the end
-- of the data that are returned; the end and the quality are those of the dataset in the catalog, and
-- the limit on the age is that of the stored policy, which is enabled and which the row names.
pub assess-IsFiled :
    (dataset_id purpose : String) (reference_time : Option ℕ) (m : Readings) (s : FreshnessStore)
    {a : Assessment} {s' : FreshnessStore}
    → assess dataset_id purpose reference_time m s ≡ (ok a, s')
    → IsFiled dataset_id purpose (get_or reference_time m.now) s a s'
assess-IsFiled dataset_id purpose reference_time m s {a} {s'} ran =
    let now = get_or reference_time m.now in
    let h = assess_concluded dataset_id purpose reference_time m s ran in
    let id = policy_id dataset_id purpose in
    let (named, on) =
      both_true (has_policy_id id h.row) h.row.enabled
        (first_row-passes (is_enabled id) s'.policies h.enabled) in
    let same = h.returned in
    record {
      filed =
          assessment_row dataset_id purpose now h.dataset
            (judge (policy_of purpose h.row) purpose now h.dataset) m;
      policy = h.row;
      dataset = h.dataset;
      added = h.filed;
      catalog = h.catalog;
      ids = (sym (ap (λ x. x.assessment_id) same), sym ((eq_iff h.row.policy_id id).0 named));
      of_dataset = (refl, ap (λ x. x.dataset_id) same);
      of_purpose = (refl, ap (λ x. x.purpose) same);
      at_time = (refl, ap (λ x. x.reference_time) same);
      verdict = (sym (ap (λ x. x.status) same), sym (ap (λ x. x.reason) same));
      age = sym (ap (λ x. x.age_seconds) same);
      end = (refl, ap (λ x. x.dataset_end_ts) same);
      quality = ap (λ x. x.quality_status) same;
      limit = ap (λ x. x.max_age_seconds) same;
      read = (
        (eq_iff h.dataset.dataset_id dataset_id).0
            (first_row-passes (has_dataset_id dataset_id) s.data_catalog h.found),
        on,
      );
      stored = h.enabled;
    }

-- Where a call returns that a dataset is fresh, the stored enabled policy accepts its quality, it
-- has rows and an end, which is not further in the future than the tolerance and not older than the
-- limit of the policy, if it has one; both bounds leave off less than a second.
pub fresh-IsUsable :
    (dataset_id purpose : String) (reference_time : Option ℕ) (m : Readings) (s : FreshnessStore)
    {a : Assessment} {s' : FreshnessStore}
    → assess dataset_id purpose reference_time m s ≡ (ok a, s')
    → a.status ≡ fresh
    → (row : PolicyRow) × (d : CatalogRow) × (first_row
          (is_enabled (policy_id dataset_id purpose))
          s'.policies
        ≡ some row)
      × (first_row (has_dataset_id dataset_id) s.data_catalog ≡ some d)
      × IsUsable (policy_of purpose row) (get_or reference_time m.now) d a.age_seconds
fresh-IsUsable dataset_id purpose reference_time m s {a} ran good =
    let now = get_or reference_time m.now in
    let h = assess_concluded dataset_id purpose reference_time m s ran in
    let p = policy_of purpose h.row in
    let usable =
      judge-IsUsable p purpose now h.dataset (sym (ap (λ x. x.status) h.returned) ∙ good) in
    (
      h.row,
      h.dataset,
      h.enabled,
      h.found,
      subst (λ age. IsUsable p now h.dataset age) (sym (ap (λ x. x.age_seconds) h.returned)) usable,
    )

-- Where the purpose has a default policy, the dataset is not in the catalog and no policy has its keys,
-- the call raises that the dataset is not found, and yet the default policy for it stays stored.
pub unknown_dataset_leaves_policy :
    (dataset_id purpose : String) (reference_time : Option ℕ) (m : Readings) (s : FreshnessStore)
    {default : FreshnessPolicy}
    → default_policies purpose ≡ some default
    → first_row (has_dataset_id dataset_id) s.data_catalog ≡ none
    → any_row (clashes (policy_row dataset_id purpose default m.policy_at)) s.policies ≡ false
    → assess dataset_id purpose reference_time m s ≡ (
      err dataset_not_found,
      put_policies (policy_row dataset_id purpose default m.policy_at ∷ s.policies) s,
    )
unfolding assess ensure_policy insert_or_ignore
unknown_dataset_leaves_policy dataset_id purpose reference_time m s known missing free =
    rw (known, free, eq_refl (policy_id dataset_id purpose), missing) refl

module _ (id : String) (row : PolicyRow) where
  -- A policy that is stored.
  abbrev HoldsPolicy : FreshnessStore → Type 0
  HoldsPolicy s = first_row (has_policy_id id) s.policies ≡ some row

  insert_or_ignore-HoldsPolicy :
      (new : PolicyRow) (s : FreshnessStore) → HoldsPolicy s → HoldsPolicy (insert_or_ignore new s)
  unfolding insert_or_ignore
  insert_or_ignore-HoldsPolicy new s h = elim (Bool-cases (any_row (clashes new) s.policies)) [
    | inl clash ↦ rw clash h
    | inr free ↦ rw free (elim (Bool-cases (str_eq new.policy_id id)) [
      | inr away ↦ rw away h
      | inl same ↦
          let named = first_row-passes (has_policy_id id) s.policies h in
          let apart =
            All-first_row (λ p. clashes new p ≡ false) (has_policy_id id) s.policies
              (any_row-none (clashes new) s.policies free) h in
          let bad : clashes new row ≡ true = rw ((eq_iff new.policy_id id).0 same, named) refl in cc
    ])
  ]

  ensure_policy-HoldsPolicy :
      (dataset_id purpose : String) (now : ℕ)
      → Keeps HoldsPolicy (ensure_policy dataset_id purpose now)
  unfolding ensure_policy
  ensure_policy-HoldsPolicy dataset_id purpose now s h =
      elim (Option-cases (default_policies purpose)) [
        | inl unsupported ↦ rw unsupported h
        | inr (default, known) ↦
            let t = insert_or_ignore (policy_row dataset_id purpose default now) s in
            let kept =
              insert_or_ignore-HoldsPolicy (policy_row dataset_id purpose default now) s h in
            elim (Option-cases (first_row (is_enabled (policy_id dataset_id purpose)) t.policies)) [
              | inl disabled ↦ rw (known, disabled) kept
              | inr (p, enabled) ↦ rw (known, enabled) kept
            ]
      ]

  conclude-HoldsPolicy :
      (dataset_id purpose : String) (now : ℕ) (p : FreshnessPolicy) (d : CatalogRow) (m : Readings)
      → Keeps HoldsPolicy (conclude dataset_id purpose now p d m)
  unfolding conclude insert_assessment
  conclude-HoldsPolicy dataset_id purpose now p d m s h =
      elim (Bool-cases (any_row (has_assessment_id m.assessment_id) s.assessments)) [
        | inl clash ↦ rw clash h
        | inr free ↦ rw free h
      ]

  -- A stored policy, whatever it says and whether it is enabled or not, is the same after any call,
  -- which may raise.
  pub policy_stays :
      (dataset_id purpose : String) (reference_time : Option ℕ) (m : Readings) (s : FreshnessStore)
      → first_row (has_policy_id id) s.policies ≡ some row
      → first_row (has_policy_id id) (assess dataset_id purpose reference_time m s).1.policies
        ≡ some row
  unfolding assess
  policy_stays dataset_id purpose reference_time m =
      Keeps-bind HoldsPolicy (ensure_policy dataset_id purpose m.policy_at) _
        (ensure_policy-HoldsPolicy dataset_id purpose m.policy_at)
        (λ p s h.
          Keeps-bind HoldsPolicy
            (or_raise (first_row (has_dataset_id dataset_id) s.data_catalog) dataset_not_found) _
            (Keeps-or_raise HoldsPolicy (first_row (has_dataset_id dataset_id) s.data_catalog)
              dataset_not_found)
            (λ d. conclude-HoldsPolicy dataset_id purpose (get_or reference_time m.now) p d m) s h)
