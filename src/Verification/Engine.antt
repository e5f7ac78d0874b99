-- ===== src/Verification/Engine.antt =====
-- `VerificationEngine.verify` and `assess_critic` of src/financial_intelligence/domain/verification/engine.py.
use agentic_equity_research.Prelude.{
  ℕ, Bool, true, false, not, ◌&&◌, ◌||◌, Option, none, some, List, [], ◌∷◌, ◌++◌, ltb, ◌==◌, length,
  any, keep, take, Result, ok, ◌>>=◌, ◌>>◌, if◌then◌else◌,
}
use agentic_equity_research.Text.{Text, text, fail_if, same_text, has_text, str_int, digits}
use agentic_equity_research.Task.{Datetime}
use agentic_equity_research.Verification.{
  ClaimType, Value, Library, Claim, EvidenceRef, EvidenceBundle, check_bundle, evidence_ids,
  VerificationStatus, ConfidenceFactor, ContradictionRecord, check_contradiction, CriticRequest,
  check_request, CriticAssessmentStatus, CriticAssessment, check_assessment, no_requests,
  VerificationResult, check_verification, is_definitively_verified,
}
use agentic_equity_research.Verification.Match.{classify, same_type, str_value}
use agentic_equity_research.Verification.Score.{VerificationEngine, is_recent, compute_confidence}

unfoldable pub type_value : ClaimType → Text
unfolding text
type_value ClaimType.factual = text "factual"
type_value ClaimType.numeric = text "numeric"
type_value ClaimType.date = text "date"
type_value ClaimType.source_authority = text "source_authority"

unfoldable pub verification_value : VerificationStatus → Text
unfolding text
verification_value VerificationStatus.verified = text "verified"
verification_value VerificationStatus.partially_verified = text "partially_verified"
verification_value VerificationStatus.contradicted = text "contradicted"
verification_value VerificationStatus.conflicting = text "conflicting"
verification_value VerificationStatus.unverifiable = text "unverifiable"
verification_value VerificationStatus.stale = text "stale"

unfoldable pub factor_value : ConfidenceFactor → Text
unfolding text
factor_value ConfidenceFactor.source_authority = text "source_authority"
factor_value ConfidenceFactor.evidence_recency = text "evidence_recency"
factor_value ConfidenceFactor.evidence_consistency = text "evidence_consistency"
factor_value ConfidenceFactor.evidence_completeness = text "evidence_completeness"
factor_value ConfidenceFactor.no_contradictions = text "no_contradictions"
factor_value ConfidenceFactor.cross_source_agreement = text "cross_source_agreement"
factor_value ConfidenceFactor.explicit_period_match = text "explicit_period_match"
factor_value ConfidenceFactor.explicit_unit_currency_match = text "explicit_unit_currency_match"

-- `_claim_type_to_capability`
unfoldable pub claim_type_to_capability : ClaimType → Text
unfolding text
claim_type_to_capability ClaimType.numeric = text "financials"
claim_type_to_capability _ = text "general"

-- separator.join(parts)
abbrev pub join_with : Text → List Text → Text
join_with separator [] = []
join_with separator (p ∷ []) = p
join_with separator (p ∷ q ∷ qs) = p ++ (separator ++ join_with separator (q ∷ qs))

abbrev factor_values : List ConfidenceFactor → List Text
factor_values [] = []
factor_values (f ∷ fs) = factor_value f ∷ factor_values fs

abbrev pub no_texts : List Text → Bool
no_texts [] = true
no_texts (t ∷ ts) = false

module _ {D : Type 0} where
  abbrev pub no_refs : List (EvidenceRef D) → Bool
  no_refs [] = true
  no_refs (r ∷ rs) = false

  -- The identifiers of the references that were retrieved after `now`.
  abbrev pub future_ids : List (EvidenceRef D) → Datetime → List Text
  future_ids refs now = evidence_ids (keep (λ r. ltb now.instant r.retrieved_at.instant) refs)

  -- The bundle without its future references. They become neutral; the references of a bundle have
  -- distinct identifiers, so `ref in bundle.neutral` is asked by the identifier.
  unfoldable pub drop_future : EvidenceBundle D → Datetime → Result (EvidenceBundle D)
  unfolding check_bundle same_text
  drop_future b now =
      let future = future_ids b.evidence_refs now in
      if no_texts future
      then ok b
      else check_bundle (record b {
        supporting = keep (λ r. not (has_text r.evidence_id future)) b.supporting;
        contradicting = keep (λ r. not (has_text r.evidence_id future)) b.contradicting;
        neutral =
            keep
              (λ r.
                has_text r.evidence_id future || has_text r.evidence_id (evidence_ids b.neutral))
              b.evidence_refs;
      })

  abbrev pub seen_at : EvidenceRef D → Datetime
  seen_at r = elim r.as_of [ none ↦ r.retrieved_at | some at ↦ at ]

module _ {D : Type 0} (lib : Library D) (engine : VerificationEngine D) where
  -- `_determine_status`
  unfoldable pub determine_status : EvidenceBundle D → D → Datetime → VerificationStatus
  determine_status b confidence now =
      let is_stale =
        not (any (λ r. is_recent engine.max_evidence_age_days now (seen_at r)) b.supporting) in
      if no_refs b.evidence_refs
      then VerificationStatus.unverifiable
      else if not (no_refs b.supporting) && not (no_refs b.contradicting)
      then VerificationStatus.conflicting
      else if not (no_refs b.supporting)
      then (if lib.le engine.min_confidence_for_verified confidence
          then (if is_stale then VerificationStatus.stale else VerificationStatus.verified)
          else if lib.le engine.min_confidence_for_partially_verified confidence
          then (if is_stale
              then VerificationStatus.stale
              else VerificationStatus.partially_verified)
          else if is_stale
          then VerificationStatus.stale
          else VerificationStatus.unverifiable)
      else if not (no_refs b.contradicting)
      then VerificationStatus.contradicted
      else VerificationStatus.unverifiable

  abbrev same_value : Value D → Value D → Bool
  same_value (Value.string a) (Value.string b) = same_text a b
  same_value (Value.decimal a) (Value.decimal b) = lib.same a b
  same_value (Value.moment a) (Value.moment b) = a.instant == b.instant
  same_value _ _ = false

  -- The record of one pair of references, if it is one.
  unfoldable pub contradiction_of :
      Claim D
      → EvidenceRef D
      → EvidenceRef D
      → Option (Value D)
      → Option (Value D)
      → Option ContradictionRecord
  unfolding text type_value same_text
  contradiction_of claim s c (some sv) (some cv) =
      if same_type s.claim_type c.claim_type && not (same_value sv cv)
      then some (record {
        claim_id = claim.claim_id;
        supporting_refs = s.evidence_id ∷ [];
        contradicting_refs = c.evidence_id ∷ [];
        description =
            text "Evidence "
            ++ s.evidence_id
            ++ text " ("
            ++ s.source_id
            ++ text ") claims "
            ++ str_value lib sv
            ++ text " but "
            ++ c.evidence_id
            ++ text " ("
            ++ c.source_id
            ++ text ") claims "
            ++ str_value lib cv
            ++ text " for "
            ++ type_value claim.claim_type
            ++ text " claim";
        detected_at = lib.utc_now;
      })
      else none
  contradiction_of claim s c _ _ = none

  abbrev cons_checked :
      Option ContradictionRecord
      → Result (List ContradictionRecord)
      → Result (List ContradictionRecord)
  cons_checked none rest = rest
  cons_checked (some record') rest = do
    checked ← check_contradiction record'
    later ← rest
    ok (checked ∷ later)

  -- The inner loop of `_detect_contradictions`.
  unfoldable pub contradictions_with :
      Claim D → EvidenceRef D → List (EvidenceRef D) → Result (List ContradictionRecord)
  unfolding contradiction_of check_contradiction
  contradictions_with claim s [] = ok []
  contradictions_with claim s (c ∷ cs) =
      cons_checked (contradiction_of claim s c s.extracted_value c.extracted_value)
        (contradictions_with claim s cs)

  -- `_detect_contradictions`: with one of the lists empty the loops give nothing.
  unfoldable pub detect_contradictions :
      Claim D → List (EvidenceRef D) → List (EvidenceRef D) → Result (List ContradictionRecord)
  unfolding contradictions_with
  detect_contradictions claim [] contradicting = ok []
  detect_contradictions claim (s ∷ ss) contradicting = do
    first ← contradictions_with claim s contradicting
    rest ← detect_contradictions claim ss contradicting
    ok (first ++ rest)

  -- CriticRequest.new
  abbrev pub request_new : Claim D → Text → Text → CriticRequest
  request_new claim reason query = (record {
    request_id = lib.uuid4;
    claim_id = claim.claim_id;
    reason = reason;
    suggested_capability = claim_type_to_capability claim.claim_type;
    suggested_query = query;
    priority = 1;
    max_attempts = 2;
    created_at = lib.utc_now;
  })

  unfoldable pub one_request : Claim D → Text → Text → Result (List CriticRequest)
  unfolding check_request claim_type_to_capability text
  one_request claim reason query = do
    request ← check_request (request_new claim reason query)
    ok (request ∷ [])

  -- `_generate_critic_requests`
  unfoldable pub generate_critic_requests :
      Claim D → VerificationStatus → Result (List CriticRequest)
  unfolding one_request type_value text
  generate_critic_requests claim VerificationStatus.verified = ok []
  generate_critic_requests claim VerificationStatus.partially_verified =
      one_request claim
        (text "Evidence only partially supports "
          ++ type_value claim.claim_type
          ++ text " claim; seek stronger or additional corroboration")
        (text "Find stronger corroborating evidence for: " ++ claim.claim_text)
  generate_critic_requests claim VerificationStatus.unverifiable =
      one_request claim
        (text "Insufficient evidence to verify " ++ type_value claim.claim_type ++ text " claim")
        (text "Find evidence for: " ++ claim.claim_text)
  generate_critic_requests claim VerificationStatus.conflicting =
      one_request claim
        (text "Conflicting evidence found for "
          ++ type_value claim.claim_type
          ++ text " claim; need authoritative source")
        (text "Resolve contradiction for: " ++ claim.claim_text)
  generate_critic_requests claim VerificationStatus.stale =
      one_request claim
        (text "Evidence is older than "
          ++ str_int engine.max_evidence_age_days
          ++ text " days; need fresh data")
        (text "Find recent data for: " ++ claim.claim_text)
  generate_critic_requests claim VerificationStatus.contradicted =
      one_request claim
        (text "Evidence contradicts "
          ++ type_value claim.claim_type
          ++ text " claim; verify with authoritative source")
        (text "Verify with authoritative source: " ++ claim.claim_text)

  abbrev factor_parts : List ConfidenceFactor → List Text
  factor_parts [] = []
  factor_parts (f ∷ fs) = (text "Factors: " ++ join_with (text ", ") (factor_values (f ∷ fs))) ∷ []

  abbrev contradiction_parts : List (EvidenceRef D) → List Text
  contradiction_parts [] = []
  contradiction_parts (r ∷ rs) = (text "Contradictions found: " ++ str_int (length (r ∷ rs))) ∷ []

  -- `_build_rationale`
  unfoldable pub build_rationale :
      Claim D → EvidenceBundle D → D → List ConfidenceFactor → VerificationStatus → Text
  unfolding text type_value verification_value factor_value digits
  build_rationale claim b confidence factors status = join_with (text " | ") (
      (text "Evaluated claim '"
        ++ take 100 claim.claim_text
        ++ text "...' (type: "
        ++ type_value claim.claim_type
        ++ text ")")
      ∷ (text "Status: " ++ verification_value status)
      ∷ (text "Confidence: " ++ lib.two_places confidence)
      ∷ (text "Evidence: "
          ++ str_int (length b.evidence_refs)
          ++ text " total ("
          ++ str_int (length b.supporting)
          ++ text " supporting, "
          ++ str_int (length b.contradicting)
          ++ text " contradicting)")
      ∷ (factor_parts factors ++ contradiction_parts b.contradicting))

  -- From the classified evidence to the result.
  unfoldable pub conclude_claim :
      Claim D → EvidenceBundle D → Datetime → Result (VerificationResult D)
  unfolding compute_confidence determine_status detect_contradictions generate_critic_requests
      build_rationale check_verification
  conclude_claim claim b now = do
    let (confidence, factors) = compute_confidence lib engine claim b now
    let status = determine_status b confidence now
    contradictions ← detect_contradictions claim b.supporting b.contradicting
    critic_requests ← generate_critic_requests claim status
    check_verification lib (record {
      claim_id = claim.claim_id;
      status = status;
      confidence_score = confidence;
      confidence_factors = factors;
      evidence_bundle_id = b.claim_id;
      contradictions = contradictions;
      critic_requests = critic_requests;
      rationale = build_rationale claim b confidence factors status;
      score_version = engine.score_version;
      verified_at = now;
    })

  -- `verify`; `now` is the time that is given, or else the clock's.
  unfoldable pub verify : Claim D → EvidenceBundle D → Datetime → Result (VerificationResult D)
  unfolding classify drop_future conclude_claim same_text
  verify claim given now = do
    fail_if (not now.tz_aware) "verification time must be timezone-aware"
    fail_if (not (same_text given.claim_id claim.claim_id))
        "evidence bundle claim_id does not match claim"
    classified ← classify lib claim given.evidence_refs
    b ← drop_future classified now
    conclude_claim claim b now

-- replace(request, max_attempts=…) for each request
unfoldable pub with_attempts : ℕ → List CriticRequest → Result (List CriticRequest)
unfolding check_request
with_attempts max_attempts [] = ok []
with_attempts max_attempts (r ∷ rs) = do
  first ← check_request (record r { max_attempts = max_attempts })
  rest ← with_attempts max_attempts rs
  ok (first ∷ rest)

-- `assess_critic`
unfoldable pub assess_critic : {D : Type 0} → VerificationResult D → ℕ → ℕ → Result CriticAssessment
unfolding check_assessment with_attempts
assess_critic result attempts_used max_attempts = do
  fail_if (ltb max_attempts 1 || ltb 10 max_attempts) "critic max_attempts must be between 1 and 10"
  fail_if (ltb max_attempts attempts_used) "critic attempts_used is outside the budget"
  if is_definitively_verified result.status
      then check_assessment (record {
        claim_id = result.claim_id;
        status = CriticAssessmentStatus.sufficient_evidence;
        attempts_used = attempts_used;
        max_attempts = max_attempts;
        requests = [];
      })
      else if attempts_used == max_attempts
      then check_assessment (record {
        claim_id = result.claim_id;
        status = CriticAssessmentStatus.attempts_exhausted;
        attempts_used = attempts_used;
        max_attempts = max_attempts;
        requests = [];
      })
      else (do
        requests ← with_attempts max_attempts result.critic_requests
        fail_if (no_requests requests) "non-terminal verification result has no critic request"
        check_assessment (record {
          claim_id = result.claim_id;
          status = CriticAssessmentStatus.research_required;
          attempts_used = attempts_used;
          max_attempts = max_attempts;
          requests = requests;
        }))
