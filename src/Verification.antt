-- ===== src/Verification.antt =====
-- src/financial_intelligence/domain/verification: claims, evidence and results (claim.py, evidence.py,
-- result.py). What comes from Python's library is read through `Library`: decimals, the lower case of
-- a text, URLs, and the clock and identifiers that a default value takes.
pub mod Match
pub mod Score
pub mod Engine
pub mod Members
pub mod Classes
pub mod Verdicts
pub mod Critic
pub mod Bounds
use agentic_equity_research.Prelude.{
  ℕ, Bool, true, false, not, ◌&&◌, ◌||◌, Option, none, some, List, [], ◌∷◌, ltb, leb, ◌==◌, length,
  any, take, Result, ok, raise_if, ◌>>=◌, ◌>>◌, if◌then◌else◌, naive_timestamp,
}
use agentic_equity_research.Text.{
  Text, text, fail_if, strip, normalize, is_empty, exceeds, same_text, has_text, unique_texts,
}
use agentic_equity_research.Task.{Datetime, is_naive}
use agentic_equity_research.Outcome.{DataOrigin}

pub data ClaimType : Type 0 where
  factual numeric date source_authority : ClaimType

-- str | Decimal | datetime
pub data Value (D : Type 0) : Type 0 where
  string : Text → Value D
  decimal : D → Value D
  moment : Datetime → Value D

pub record Url : Type 0 where
  pub scheme : Text
  pub hostname : Option Text

-- What the code takes from Python's library. `D` is `Decimal`, `literal n k` is the decimal n / 10 ^ k,
-- and `ratio a b` is `Decimal(str(a)) / Decimal(str(b))`.
pub record Library (D : Type 0) : Type 0 where
  pub lower : Text → Text
  pub urlparse : Text → Url
  pub parse : Text → Option D
  pub is_finite : D → Bool
  pub same : D → D → Bool
  pub le : D → D → Bool
  pub plus : D → D → D
  pub times : D → D → D
  pub ratio : ℕ → ℕ → D
  pub literal : ℕ → ℕ → D
  pub str_decimal : D → Text
  pub str_datetime : Datetime → Text
  pub two_places : D → Text
  pub utc_now : Datetime
  pub uuid4 : Text

abbrev pub is_naive_value : {D : Type 0} → Option (Value D) → Bool
is_naive_value (some (Value.moment d)) = not d.tz_aware
is_naive_value _ = false

pub record Claim (D : Type 0) : Type 0 where
  pub claim_id : Text
  pub claim_type : ClaimType
  pub claim_text : Text
  pub expected_value : Option (Value D)
  pub expected_unit : Option Text
  pub expected_currency : Option Text
  pub expected_period : Option Text
  pub expected_as_of : Option Datetime
  pub created_at : Datetime

pub data AuthorityTier : Type 0 where
  tier_1_authoritative tier_2_structured_financial tier_3_reputable_news tier_4_general_web :
      AuthorityTier

-- An evidence reference, whose claim type is one of `ClaimType`.
pub record EvidenceRef (D : Type 0) : Type 0 where
  pub evidence_id : Text
  pub source_id : Text
  pub authority_tier : AuthorityTier
  pub data_origin : DataOrigin
  pub claim_type : ClaimType
  pub extracted_value : Option (Value D)
  pub extracted_unit : Option Text
  pub extracted_currency : Option Text
  pub extracted_period : Option Text
  pub as_of : Option Datetime
  pub retrieved_at : Datetime
  pub raw_snippet : Text
  pub url : Option Text

pub record EvidenceBundle (D : Type 0) : Type 0 where
  pub claim_id : Text
  pub evidence_refs : List (EvidenceRef D)
  pub supporting : List (EvidenceRef D)
  pub contradicting : List (EvidenceRef D)
  pub neutral : List (EvidenceRef D)

abbrev pub evidence_ids : {D : Type 0} → List (EvidenceRef D) → List Text
evidence_ids [] = []
evidence_ids (r ∷ rs) = r.evidence_id ∷ evidence_ids rs

abbrev is_given_host : Option Text → Bool
is_given_host none = false
is_given_host (some h) = not (is_empty h)

module _ {D : Type 0} (lib : Library D) where
  -- Claim.__post_init__
  unfoldable pub check_claim : Claim D → Result (Claim D)
  check_claim c = do
    fail_if (not c.created_at.tz_aware) "created_at must be timezone-aware"
    fail_if (is_naive_value c.expected_value) "datetime expected_value must be timezone-aware"
    fail_if (is_naive c.expected_as_of) "expected_as_of must be timezone-aware"
    let content = normalize c.claim_text
    fail_if (is_empty content || exceeds content 5000) "claim text empty or exceeds bounds"
    ok (record c { claim_text = content })

  -- The test of EvidenceRef.__post_init__ on the URL.
  unfoldable pub is_bad_url : Option Text → Bool
  is_bad_url none = false
  is_bad_url (some url) =
      let parsed = lib.urlparse url in
      exceeds url 2048
      || not (has_text (lib.lower parsed.scheme) (text "http" ∷ text "https" ∷ []))
      || not (is_given_host parsed.hostname)

  -- EvidenceRef.__post_init__
  unfoldable pub check_evidence_ref : EvidenceRef D → Result (EvidenceRef D)
  unfolding is_bad_url
  check_evidence_ref r = do
    let evidence_id = strip r.evidence_id
    fail_if (is_empty evidence_id || exceeds evidence_id 128) "evidence_id empty or exceeds bounds"
    let source_id = strip r.source_id
    fail_if (is_empty source_id || exceeds source_id 128) "source_id empty or exceeds bounds"
    fail_if (not r.retrieved_at.tz_aware) "retrieved_at must be timezone-aware"
    fail_if (is_naive r.as_of) "as_of must be timezone-aware"
    fail_if (is_naive_value r.extracted_value) "datetime extracted_value must be timezone-aware"
    let snippet = normalize r.raw_snippet
    fail_if (is_bad_url r.url) "url must be a bounded HTTP(S) URL"
    ok (record r {
      evidence_id = evidence_id;
      source_id = source_id;
      raw_snippet = if exceeds snippet 2000 then take 2000 snippet else snippet;
    })

-- EvidenceBundle.__post_init__
unfoldable pub check_bundle : {D : Type 0} → EvidenceBundle D → Result (EvidenceBundle D)
unfolding unique_texts
check_bundle b = do
  let claim_id = strip b.claim_id
  fail_if (is_empty claim_id || exceeds claim_id 128) "claim_id empty or exceeds bounds"
  let ids = evidence_ids b.evidence_refs
  fail_if (not (length ids == length (unique_texts [] ids)))
      "duplicate evidence_id in evidence bundle"
  ok (record b { claim_id = claim_id })

pub data VerificationStatus : Type 0 where
  verified partially_verified contradicted conflicting unverifiable stale : VerificationStatus

pub data ConfidenceFactor : Type 0 where
  source_authority evidence_recency evidence_consistency evidence_completeness : ConfidenceFactor
  no_contradictions cross_source_agreement explicit_period_match : ConfidenceFactor
  explicit_unit_currency_match : ConfidenceFactor

pub record ContradictionRecord : Type 0 where
  pub claim_id : Text
  pub supporting_refs : List Text
  pub contradicting_refs : List Text
  pub description : Text
  pub detected_at : Datetime

-- ContradictionRecord.__post_init__
unfoldable pub check_contradiction : ContradictionRecord → Result ContradictionRecord
check_contradiction c = do
  fail_if (not c.detected_at.tz_aware) "detected_at must be timezone-aware"
  let desc = normalize c.description
  fail_if (is_empty desc || exceeds desc 1000) "contradiction description empty or exceeds bounds"
  ok (record c { description = desc })

pub record CriticRequest : Type 0 where
  pub request_id : Text
  pub claim_id : Text
  pub reason : Text
  pub suggested_capability : Text
  pub suggested_query : Text
  pub priority : ℕ
  pub max_attempts : ℕ
  pub created_at : Datetime

-- CriticRequest.__post_init__: it runs on construction and on every `replace`.
unfoldable pub check_request : CriticRequest → Result CriticRequest
check_request r = do
  fail_if (not r.created_at.tz_aware) "created_at must be timezone-aware"
  let reason = normalize r.reason
  fail_if (is_empty reason || exceeds reason 500) "critic reason empty or exceeds bounds"
  let query = normalize r.suggested_query
  fail_if (is_empty query || exceeds query 500) "critic query empty or exceeds bounds"
  let capability = normalize r.suggested_capability
  fail_if (is_empty capability || exceeds capability 128)
      "critic capability empty or exceeds bounds"
  fail_if (ltb r.priority 1 || ltb 3 r.priority) "critic priority must be 1, 2, or 3"
  fail_if (ltb r.max_attempts 1 || ltb 10 r.max_attempts)
      "critic max_attempts must be between 1 and 10"
  ok (record r { reason = reason; suggested_query = query; suggested_capability = capability })

pub data CriticAssessmentStatus : Type 0 where
  sufficient_evidence research_required attempts_exhausted : CriticAssessmentStatus

pub record CriticAssessment : Type 0 where
  pub claim_id : Text
  pub status : CriticAssessmentStatus
  pub attempts_used : ℕ
  pub max_attempts : ℕ
  pub requests : List CriticRequest

abbrev pub is_research_required : CriticAssessmentStatus → Bool
is_research_required CriticAssessmentStatus.research_required = true
is_research_required _ = false

abbrev pub is_exhausted : CriticAssessmentStatus → Bool
is_exhausted CriticAssessmentStatus.attempts_exhausted = true
is_exhausted _ = false

abbrev pub no_requests : List CriticRequest → Bool
no_requests [] = true
no_requests (r ∷ rs) = false

-- CriticAssessment.__post_init__
unfoldable pub check_assessment : CriticAssessment → Result CriticAssessment
check_assessment a = do
  fail_if (is_empty (strip a.claim_id)) "critic assessment claim_id must not be empty"
  fail_if (ltb a.max_attempts 1 || ltb 10 a.max_attempts)
      "critic assessment max_attempts must be between 1 and 10"
  fail_if (ltb a.max_attempts a.attempts_used)
      "critic assessment attempts_used is outside the budget"
  (if is_research_required a.status
      then fail_if (leb a.max_attempts a.attempts_used || no_requests a.requests)
          "research-required assessment needs budget and requests"
      else fail_if (not (no_requests a.requests))
          "terminal critic assessment must not contain requests")
  fail_if (is_exhausted a.status && not (a.attempts_used == a.max_attempts))
      "exhausted assessment must consume the attempt budget"
  ok a

pub record VerificationResult (D : Type 0) : Type 0 where
  pub claim_id : Text
  pub status : VerificationStatus
  pub confidence_score : D
  pub confidence_factors : List ConfidenceFactor
  pub evidence_bundle_id : Text
  pub contradictions : List ContradictionRecord
  pub critic_requests : List CriticRequest
  pub rationale : Text
  pub score_version : Text
  pub verified_at : Datetime

-- VerificationResult.__post_init__
unfoldable pub check_verification :
    {D : Type 0} → Library D → VerificationResult D → Result (VerificationResult D)
check_verification lib r = do
  fail_if (not r.verified_at.tz_aware) "verified_at must be timezone-aware"
  fail_if
      (not (
        lib.le (lib.literal 0 0) r.confidence_score && lib.le r.confidence_score (lib.literal 1 0)))
      "confidence_score must be between 0.0 and 1.0"
  let rationale = normalize r.rationale
  fail_if (is_empty rationale || exceeds rationale 2000) "rationale empty or exceeds bounds"
  let score_version = strip r.score_version
  fail_if (is_empty score_version || exceeds score_version 128)
      "score_version empty or exceeds bounds"
  ok (record r { rationale = rationale; score_version = score_version })

-- VerificationResult.is_definitively_verified
abbrev pub is_definitively_verified : VerificationStatus → Bool
is_definitively_verified VerificationStatus.verified = true
is_definitively_verified _ = false
