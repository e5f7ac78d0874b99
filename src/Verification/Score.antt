-- ===== src/Verification/Score.antt =====
-- `_compute_confidence` of src/financial_intelligence/domain/verification/engine.py.
use agentic_equity_research.Prelude.{
  ℕ, ◌-◌, ◌/◌, Bool, true, false, not, ◌&&◌, ◌||◌, Option, none, some, List, [], ◌∷◌, ◌++◌, leb,
  ltb, length, any, all, count, is_some, Result, ok, ◌>>=◌, ◌>>◌, if◌then◌else◌,
}
use agentic_equity_research.Text.{Text, strip, is_empty, exceeds, fail_if, same_option, is_given}
use agentic_equity_research.Task.{Datetime}
use agentic_equity_research.Verification.{
  Library, Claim, AuthorityTier, EvidenceRef, EvidenceBundle, ConfidenceFactor,
}
use agentic_equity_research.Verification.Match.{is_numeric}

-- An entry of the dict `tier_weights`.
pub record Weight (D : Type 0) : Type 0 where
  pub tier : AuthorityTier
  pub weight : D

pub record VerificationEngine (D : Type 0) : Type 0 where
  pub max_evidence_age_days : ℕ
  pub min_confidence_for_verified : D
  pub min_confidence_for_partially_verified : D
  pub score_version : Text
  pub tier_weights : List (Weight D)

abbrev pub same_tier : AuthorityTier → AuthorityTier → Bool
same_tier AuthorityTier.tier_1_authoritative AuthorityTier.tier_1_authoritative = true
same_tier AuthorityTier.tier_2_structured_financial AuthorityTier.tier_2_structured_financial = true
same_tier AuthorityTier.tier_3_reputable_news AuthorityTier.tier_3_reputable_news = true
same_tier AuthorityTier.tier_4_general_web AuthorityTier.tier_4_general_web = true
same_tier _ _ = false

-- Instants are in microseconds.
abbrev day : ℕ
day = 86400000000

-- 0 <= (now - then).days <= limit
abbrev pub is_recent : ℕ → Datetime → Datetime → Bool
is_recent limit now at = leb at.instant now.instant && leb ((now.instant - at.instant) / day) limit

abbrev pub is_recent_option : ℕ → Datetime → Option Datetime → Bool
is_recent_option limit now none = false
is_recent_option limit now (some at) = is_recent limit now at

abbrev no_weights : {D : Type 0} → List (Weight D) → Bool
no_weights [] = true
no_weights (w ∷ ws) = false

-- The components of the score, and the factors, in the order in which they are appended.
pub record Parts (D : Type 0) : Type 0 where
  pub components : List D
  pub factors : List ConfidenceFactor

abbrev nothing : {D : Type 0} → Parts D
nothing = record { components = []; factors = [] }

abbrev part : {D : Type 0} → D → Bool → ConfidenceFactor → Parts D
part d test factor = record { components = d ∷ []; factors = if test then factor ∷ [] else [] }

abbrev pub both : {D : Type 0} → Parts D → Parts D → Parts D
both p q = record { components = p.components ++ q.components; factors = p.factors ++ q.factors }

module _ {D : Type 0} (lib : Library D) where
  abbrev pub zero_d : D
  zero_d = lib.literal 0 0

  abbrev pub one_d : D
  one_d = lib.literal 1 0

  abbrev pub within_one : D → Bool
  within_one d = lib.le zero_d d && lib.le d one_d

  abbrev default_weights : List (Weight D)
  default_weights =
      record { tier = AuthorityTier.tier_1_authoritative; weight = lib.literal 10 1 }
      ∷ record { tier = AuthorityTier.tier_2_structured_financial; weight = lib.literal 7 1 }
      ∷ record { tier = AuthorityTier.tier_3_reputable_news; weight = lib.literal 5 1 }
      ∷ record { tier = AuthorityTier.tier_4_general_web; weight = lib.literal 2 1 }
      ∷ []

  abbrev chosen_weights : Option (List (Weight D)) → Result (List (Weight D))
  chosen_weights none = ok default_weights
  chosen_weights (some ws) = do fail_if (no_weights ws) "tier_weights must not be empty"; ok ws

  -- VerificationEngine.__post_init__, from the fields but the weights, and the weights if they are given.
  unfoldable pub check_engine :
      VerificationEngine D → Option (List (Weight D)) → Result (VerificationEngine D)
  check_engine e given = do
    fail_if (is_empty (strip e.score_version) || exceeds e.score_version 128)
        "score_version empty or exceeds bounds"
    fail_if
        (not (
          lib.le zero_d e.min_confidence_for_partially_verified
          && lib.le e.min_confidence_for_partially_verified e.min_confidence_for_verified
          && lib.le e.min_confidence_for_verified one_d))
        "confidence thresholds must be ordered within 0 and 1"
    ws ← chosen_weights given
    fail_if (any (λ w. not (within_one w.weight)) ws) "tier_weights must be between 0 and 1"
    ok (record e { tier_weights = ws })

  -- self.tier_weights.get(tier, Decimal("0"))
  unfoldable pub weight_of : List (Weight D) → AuthorityTier → D
  weight_of [] tier = zero_d
  weight_of (w ∷ ws) tier = elim (same_tier w.tier tier) [
    | true ↦ w.weight
    | false ↦ weight_of ws tier
  ]

  -- The first of the largest.
  unfoldable pub max_weight : List (Weight D) → D → List (EvidenceRef D) → D
  unfolding weight_of
  max_weight ws best [] = best
  max_weight ws best (r ∷ rs) =
      let w = weight_of ws r.authority_tier in max_weight ws (if lib.le w best then best else w) rs

  -- sum(components, total)
  unfoldable pub sum_from : D → List D → D
  sum_from total [] = total
  sum_from total (d ∷ ds) = sum_from (lib.plus total d) ds

  -- min(max(score, 0), 1), for a score that is a number: the comparisons of the source raise on a NaN
  unfoldable pub clamp : D → D
  clamp score =
      let low = if lib.le zero_d score then score else zero_d in
      if lib.le low one_d then low else one_d

  unfoldable pub scored : Parts D → D × List ConfidenceFactor
  unfolding sum_from clamp
  scored p = (clamp (sum_from zero_d p.components), p.factors)

  module _ (engine : VerificationEngine D) (claim : Claim D) (bundle : EvidenceBundle D)
      (now : Datetime) where
    abbrev is_recent_ref : EvidenceRef D → Bool
    is_recent_ref r =
        is_recent_option engine.max_evidence_age_days now r.as_of
        || is_recent engine.max_evidence_age_days now r.retrieved_at

    -- 1. Source authority, where `r` is the first supporting reference.
    unfoldable pub authority_part : EvidenceRef D → List (EvidenceRef D) → Parts D
    unfolding max_weight weight_of
    authority_part r rs =
        let w =
          max_weight engine.tier_weights (weight_of engine.tier_weights r.authority_tier) rs in
        part w (lib.le (lib.literal 7 1) w) ConfidenceFactor.source_authority

    -- 2. Evidence recency
    unfoldable pub recency_part : Parts D
    recency_part =
        let recent = count is_recent_ref bundle.supporting in
        part (lib.times (lib.ratio recent (length bundle.supporting)) (lib.literal 3 1))
          (ltb 0 recent) ConfidenceFactor.evidence_recency

    abbrev no_refs : List (EvidenceRef D) → Bool
    no_refs [] = true
    no_refs (r ∷ rs) = false

    -- 3. Evidence consistency
    unfoldable pub consistency_part : Parts D
    consistency_part =
        let consistency = lib.ratio (length bundle.supporting) (length bundle.evidence_refs) in
        if no_refs bundle.evidence_refs
        then nothing
        else if no_refs bundle.contradicting
        then part (lib.times consistency (lib.literal 3 1)) true ConfidenceFactor.no_contradictions
        else part (lib.times consistency (lib.literal 1 1)) false ConfidenceFactor.no_contradictions

    abbrev has_tier : AuthorityTier → Bool
    has_tier tier = any (λ r. same_tier r.authority_tier tier) bundle.supporting

    -- 4. Cross-source agreement
    unfoldable pub agreement_part : Parts D
    agreement_part =
        if has_tier AuthorityTier.tier_1_authoritative
          && has_tier AuthorityTier.tier_2_structured_financial
        then part (lib.literal 1 1) true ConfidenceFactor.cross_source_agreement
        else nothing

    -- 5. Evidence completeness
    unfoldable pub completeness_part : Parts D
    completeness_part =
        if is_numeric claim.claim_type
          && all
              (λ r.
                is_some r.extracted_value
                && (is_given r.extracted_unit || is_given claim.expected_unit)
                && (is_given r.extracted_currency || is_given claim.expected_currency))
              bundle.supporting
          && not (no_refs bundle.supporting)
        then part (lib.literal 1 1) true ConfidenceFactor.evidence_completeness
        else nothing

    -- 6. Explicit period match
    unfoldable pub period_part : Parts D
    period_part =
        if is_given claim.expected_period
          && any (λ r. same_option r.extracted_period claim.expected_period) bundle.supporting
        then part (lib.literal 5 2) true ConfidenceFactor.explicit_period_match
        else nothing

    -- 7. Explicit unit/currency match
    unfoldable pub unit_part : Parts D
    unit_part =
        if (is_given claim.expected_unit || is_given claim.expected_currency)
          && all
              (λ r.
                (not (is_given claim.expected_unit)
                  || same_option r.extracted_unit claim.expected_unit)
                && (not (is_given claim.expected_currency)
                    || same_option r.extracted_currency claim.expected_currency))
              bundle.supporting
          && not (no_refs bundle.supporting)
        then part (lib.literal 5 2) true ConfidenceFactor.explicit_unit_currency_match
        else nothing

    -- The score and the factors of a list of supporting references.
    unfoldable pub confidence_of : List (EvidenceRef D) → D × List ConfidenceFactor
    unfolding authority_part recency_part consistency_part agreement_part completeness_part
        period_part unit_part scored
    confidence_of [] = (zero_d, [])
    confidence_of (r ∷ rs) = scored (
        both (authority_part r rs) (
          both recency_part (
            both consistency_part
              (both agreement_part (both completeness_part (both period_part unit_part))))))

    -- `_compute_confidence`
    unfoldable pub compute_confidence : D × List ConfidenceFactor
    unfolding confidence_of
    compute_confidence = confidence_of bundle.supporting
