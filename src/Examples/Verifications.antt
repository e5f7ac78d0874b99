-- ===== src/Examples/Verifications.antt =====
-- The verification of a claim, with decimals as whole numbers of millionths.
use agentic_equity_research.Prelude.{
  count, Bool, ℕ, zero, suc, ◌+◌, ◌*◌, ◌/◌, ◌≤◌, ◌≡◌, refl, true, ◌&&◌, none, some, Option, List,
  [], ◌∷◌, Result, ok, err, leb, ◌==◌, All, Elem, if◌then◌else◌, value_error, arith, map,
}
use agentic_equity_research.Text.{
  Text, text, str_int, strip, is_space, split_from, lstrip, rstrip, normalize,
}
use agentic_equity_research.Task.{Datetime}
use agentic_equity_research.Outcome.{DataOrigin}
use agentic_equity_research.Verification.{
  ClaimType, Value, Library, Claim, AuthorityTier, EvidenceRef, EvidenceBundle, VerificationStatus,
  VerificationResult, CriticAssessment,
}
use agentic_equity_research.Verification.Match.{outcome, MatchOutcome}
use agentic_equity_research.Verification.Score.{VerificationEngine, compute_confidence}
use agentic_equity_research.Verification.Engine.{verify, assess_critic}
use agentic_equity_research.Verification.Classes.{Confirms, classify_splits, classify_numeric}
use agentic_equity_research.Verification.Verdicts.{Verified, verify-Verified, verify-Confirms}
use agentic_equity_research.Verification.Critic.{Assessed, assess_critic-verify}
use agentic_equity_research.Verification.Bounds.{
  Ordered, IsScore, compute_confidence-IsScore, verify-long_claim,
}

abbrev power : ℕ → ℕ
power zero = 1
power (suc zero) = 10
power _ = 100

abbrev lower_char : ℕ → ℕ
lower_char c = if leb 65 c && leb c 90 then c + 32 else c

abbrev at : ℕ → Datetime
at days = record { tz_aware = true; instant = days * 86400000000 }

abbrev millionths : Library ℕ
millionths = record {
  lower = map lower_char;
  urlparse = λ url. record { scheme = 104 ∷ 116 ∷ 116 ∷ 112 ∷ []; hostname = none };
  parse = λ s. none;
  is_finite = λ d. true;
  same = λ a b. a == b;
  le = leb;
  plus = λ a b. a + b;
  times = λ a b. a * b / 1000000;
  ratio = λ a b. a * 1000000 / b;
  literal = λ n k. n * 1000000 / power k;
  str_decimal = str_int;
  str_datetime = λ d. str_int d.instant;
  two_places = str_int;
  utc_now = at 1000;
  uuid4 = 49 ∷ [];
}

abbrev engine : VerificationEngine ℕ
engine = record {
  max_evidence_age_days = 365;
  min_confidence_for_verified = 700000;
  min_confidence_for_partially_verified = 400000;
  score_version = 118 ∷ 49 ∷ [];
  tier_weights =
      record { tier = AuthorityTier.tier_1_authoritative; weight = 1000000 }
      ∷ record { tier = AuthorityTier.tier_4_general_web; weight = 200000 }
      ∷ [];
}

-- "revenue", 42
abbrev revenue : Claim ℕ
revenue = record {
  claim_id = 99 ∷ [];
  claim_type = ClaimType.numeric;
  claim_text = 114 ∷ 101 ∷ 118 ∷ [];
  expected_value = some (Value.decimal 42);
  expected_unit = none;
  expected_currency = none;
  expected_period = none;
  expected_as_of = none;
  created_at = at 900;
}

abbrev filing : ℕ → ℕ → EvidenceRef ℕ
filing id value = record {
  evidence_id = id ∷ [];
  source_id = 115 ∷ [];
  authority_tier = AuthorityTier.tier_1_authoritative;
  data_origin = DataOrigin.live;
  claim_type = ClaimType.numeric;
  extracted_value = some (Value.decimal value);
  extracted_unit = none;
  extracted_currency = none;
  extracted_period = none;
  as_of = none;
  retrieved_at = at 950;
  raw_snippet = 114 ∷ 101 ∷ 118 ∷ [];
  url = none;
}

abbrev bundle_of : List (EvidenceRef ℕ) → EvidenceBundle ℕ
bundle_of refs = record {
  claim_id = 99 ∷ [];
  evidence_refs = refs;
  supporting = [];
  contradicting = [];
  neutral = [];
}

unfoldable status_of : Result (VerificationResult ℕ) → Option VerificationStatus
status_of (ok r) = some r.status
status_of (err e) = none

program : Unit {0}
unfolding verify assess_critic is_space split_from strip lstrip rstrip normalize
program = tt

verified_runs :
    status_of (verify millionths engine revenue (bundle_of (filing 65 42 ∷ [])) (at 1000))
    ≡ some VerificationStatus.verified
unfolding program status_of
verified_runs = refl

-- A dissenting second filing.
conflicting_runs :
    status_of
      (verify millionths engine revenue (bundle_of (filing 65 42 ∷ filing 66 43 ∷ [])) (at 1000))
    ≡ some VerificationStatus.conflicting
unfolding program status_of
conflicting_runs = refl

abbrev result_or : VerificationResult ℕ → Result (VerificationResult ℕ) → VerificationResult ℕ
result_or d (ok r) = r
result_or d (err e) = d

abbrev no_result : VerificationResult ℕ
no_result = record {
  claim_id = [];
  status = VerificationStatus.unverifiable;
  confidence_score = 0;
  confidence_factors = [];
  evidence_bundle_id = [];
  contradictions = [];
  critic_requests = [];
  rationale = [];
  score_version = [];
  verified_at = at 0;
}

abbrev one_filing : EvidenceBundle ℕ
one_filing = bundle_of (filing 65 42 ∷ [])

abbrev two_filings : EvidenceBundle ℕ
two_filings = bundle_of (filing 65 42 ∷ filing 66 43 ∷ [])

abbrev conflict : VerificationResult ℕ
conflict = result_or no_result (verify millionths engine revenue two_filings (at 1000))

-- The split of two filings, one for and one against.
classify_splits_example :
    ((filing 65 42 ∷ filing 66 43 ∷ []) ≡ (filing 65 42 ∷ filing 66 43 ∷ []))
    × ((p : EvidenceRef ℕ → Bool)
        → count p (filing 65 42 ∷ []) + count p (filing 66 43 ∷ []) + count p []
          ≡ count p (filing 65 42 ∷ filing 66 43 ∷ []))
    × All (λ r. outcome millionths revenue r ≡ MatchOutcome.supporting) (filing 65 42 ∷ [])
    × All (λ r. outcome millionths revenue r ≡ MatchOutcome.contradicting) (filing 66 43 ∷ [])
    × All (λ r. outcome millionths revenue r ≡ MatchOutcome.neutral) []
unfolding program
classify_splits_example = classify_splits millionths revenue (filing 65 42 ∷ filing 66 43 ∷ []) refl

classify_numeric_example : All (Confirms millionths revenue) (filing 65 42 ∷ [])
unfolding program
classify_numeric_example =
    classify_numeric millionths revenue (filing 65 42 ∷ filing 66 43 ∷ []) refl refl

verify-Verified_example : Verified millionths engine revenue (filing 65 42 ∷ []) (at 1000) 1000000
unfolding program
verify-Verified_example = verify-Verified millionths engine revenue one_filing (at 1000) refl refl

verify-Confirms_example :
    (r : EvidenceRef ℕ) × Elem r (filing 65 42 ∷ [])
    × Confirms millionths revenue r
    × (r.retrieved_at.instant ≤ (at 1000).instant)
unfolding program
verify-Confirms_example =
    verify-Confirms millionths engine revenue one_filing (at 1000) refl refl refl

assess_critic-verify_example :
    (a : CriticAssessment) × (assess_critic conflict 1 2 ≡ ok a) × Assessed conflict 1 2 a
unfolding program
assess_critic-verify_example =
    assess_critic-verify millionths engine revenue two_filings (at 1000) 1 2 refl refl (omega arith)
      (omega arith) (omega arith)

millionths-Ordered : Ordered millionths
millionths-Ordered = record { zero_le_zero = refl; zero_le_one = refl; one_le_one = refl }

compute_confidence-IsScore_example :
    IsScore millionths (compute_confidence millionths engine revenue one_filing (at 1000)).0
    × (one_filing.supporting ≡ []
        → compute_confidence millionths engine revenue one_filing (at 1000) ≡ (0, []))
compute_confidence-IsScore_example =
    compute_confidence-IsScore millionths engine millionths-Ordered revenue one_filing (at 1000)

abbrev repeat : ℕ → Text
repeat zero = []
repeat (suc n) = 97 ∷ repeat n

abbrev long_claim : Claim ℕ
long_claim = record revenue { claim_text = repeat 501 }

abbrev long_bundle : EvidenceBundle ℕ
long_bundle = bundle_of (record (filing 65 42) { raw_snippet = repeat 501 } ∷ [])

verify-long_claim_example :
    (result_or no_result (verify millionths engine long_claim long_bundle (at 1000))).status
    ≡ VerificationStatus.verified
unfolding program
verify-long_claim_example =
    verify-long_claim millionths engine long_claim long_bundle (at 1000) refl (omega arith)

-- With no evidence, a claim of that length has no verdict.
long_claim_raises :
    verify millionths engine long_claim (bundle_of []) (at 1000)
    ≡ err (value_error (text "critic query empty or exceeds bounds"))
unfolding program text
long_claim_raises = refl
