-- ===== src/Verification/Critic.antt =====
-- The critic's requests, and the decision that `assess_critic` takes on the result of `verify`
-- (src/financial_intelligence/domain/verification/engine.py).
use agentic_equity_research.Prelude.{
  ℕ, ◌≤◌, ◌<◌, ◌≡◌, ◌≢◌, ◌↔◌, refl, sym, ap, ◌∙◌, Bool, true, false, ◌||◌, List, [], ◌∷◌, All, ok,
  arith, ltb, ◌==◌, >>=-eq-ok, ok-inj, if◌then◌else◌, length,
}
use mathlib.Core.Path.{subst}
use agentic_equity_research.Text.{Text, normalize, strip, is_empty, exceeds}
use agentic_equity_research.Text.Normal.{normalize-normalize}
use agentic_equity_research.Task.{Datetime}
use agentic_equity_research.Verification.{
  Library, Claim, EvidenceBundle, VerificationStatus, VerificationResult, check_verification,
  CriticRequest, check_request, CriticAssessment, CriticAssessmentStatus, check_assessment,
  no_requests, is_definitively_verified,
}
use agentic_equity_research.Verification.Score.{VerificationEngine, compute_confidence}
use agentic_equity_research.Verification.Engine.{
  request_new, one_request, detect_contradictions, determine_status, generate_critic_requests,
  conclude_claim, verify, with_attempts, assess_critic,
}
use agentic_equity_research.Verification.Verdicts.{verify_parts}

-- What the constructor has made of a request.
record IsChecked (r : CriticRequest) : Type 0 where
  aware : r.created_at.tz_aware ≡ true
  reason_normal : normalize r.reason ≡ r.reason
  reason_bounds : (is_empty r.reason || exceeds r.reason 500) ≡ false
  query_normal : normalize r.suggested_query ≡ r.suggested_query
  query_bounds : (is_empty r.suggested_query || exceeds r.suggested_query 500) ≡ false
  capability_normal : normalize r.suggested_capability ≡ r.suggested_capability
  capability_bounds :
      (is_empty r.suggested_capability || exceeds r.suggested_capability 128) ≡ false
  priority_bounds : (ltb r.priority 1 || ltb 3 r.priority) ≡ false

check_request-IsChecked :
    (x : CriticRequest) {r : CriticRequest} → check_request x ≡ ok r → IsChecked r
unfolding check_request
check_request-IsChecked x {r} h = record {
  aware = ground arith;
  reason_normal = ground (arith, normalize-normalize x.reason);
  reason_bounds = ground arith;
  query_normal = ground (arith, normalize-normalize x.suggested_query);
  query_bounds = ground arith;
  capability_normal = ground (arith, normalize-normalize x.suggested_capability);
  capability_bounds = ground arith;
  priority_bounds = ground arith;
}

-- `replace` of the budget gives a request again.
check_request-max_attempts :
    (r : CriticRequest) (m : ℕ)
    → IsChecked r
    → 1 ≤ m
    → m ≤ 10
    → check_request (record r { max_attempts = m }) ≡ ok (record r { max_attempts = m })
unfolding check_request
check_request-max_attempts r m c low high = ground (
  arith, c.aware, c.reason_normal, c.reason_bounds, c.query_normal, c.query_bounds,
  c.capability_normal, c.capability_bounds, c.priority_bounds,
)

abbrev set_attempts : ℕ → List CriticRequest → List CriticRequest
set_attempts m [] = []
set_attempts m (r ∷ rs) = record r { max_attempts = m } ∷ set_attempts m rs

with_attempts-IsChecked :
    (m : ℕ) (rs : List CriticRequest)
    → 1 ≤ m
    → m ≤ 10
    → All IsChecked rs
    → with_attempts m rs ≡ ok (set_attempts m rs)
unfolding with_attempts
with_attempts-IsChecked m [] low high all = refl
with_attempts-IsChecked m (r ∷ rs) low high all =
    rw (check_request-max_attempts r m all.0 low high, with_attempts-IsChecked m rs low high all.1)
      refl

no_requests-set_attempts :
    (m : ℕ) (rs : List CriticRequest) → no_requests (set_attempts m rs) ≡ no_requests rs
no_requests-set_attempts m [] = refl
no_requests-set_attempts m (r ∷ rs) = refl

set_attempts-budget :
    (m : ℕ) (rs : List CriticRequest) → All (λ r. r.max_attempts ≡ m) (set_attempts m rs)
set_attempts-budget m [] = tt
set_attempts-budget m (r ∷ rs) = (refl, set_attempts-budget m rs)

-- What the requests of a verdict are: valid, at most one, and none just when the claim is verified.
record Asked (status : VerificationStatus) (rs : List CriticRequest) : Type 0 where
  checked : All IsChecked rs
  at_most_one : length rs ≤ 1
  none_iff : no_requests rs ≡ is_definitively_verified status

Asked-along :
    {s t : VerificationStatus} {xs ys : List CriticRequest}
    → s ≡ t
    → xs ≡ ys
    → Asked t ys
    → Asked s xs
Asked-along e q h = rw (e, q) h

module _ {D : Type 0} (lib : Library D) (engine : VerificationEngine D) where
  one_request-Asked :
      (status : VerificationStatus) (claim : Claim D) (reason query : Text)
      {rs : List CriticRequest}
      → is_definitively_verified status ≡ false
      → one_request lib engine claim reason query ≡ ok rs
      → Asked status rs
  unfolding one_request
  one_request-Asked status claim reason query open_claim h =
      let (r, made, e) =
        >>=-eq-ok (check_request (request_new lib engine claim reason query)) _ h in
      record {
        checked =
            subst (All IsChecked) (ok-inj e)
              (check_request-IsChecked (request_new lib engine claim reason query) made, tt);
        at_most_one = subst (λ l. length l ≤ 1) (ok-inj e) (omega arith);
        none_iff = ap no_requests (sym (ok-inj e)) ∙ sym open_claim;
      }

  generate_critic_requests-Asked :
      (claim : Claim D) (status : VerificationStatus) {rs : List CriticRequest}
      → generate_critic_requests lib engine claim status ≡ ok rs
      → Asked status rs
  unfolding generate_critic_requests
  generate_critic_requests-Asked claim VerificationStatus.verified h = record {
    checked = subst (All IsChecked) (ok-inj h) tt;
    at_most_one = subst (λ l. length l ≤ 1) (ok-inj h) (omega arith);
    none_iff = ap no_requests (sym (ok-inj h));
  }
  generate_critic_requests-Asked claim VerificationStatus.partially_verified h =
      one_request-Asked _ claim _ _ refl h
  generate_critic_requests-Asked claim VerificationStatus.contradicted h =
      one_request-Asked _ claim _ _ refl h
  generate_critic_requests-Asked claim VerificationStatus.conflicting h =
      one_request-Asked _ claim _ _ refl h
  generate_critic_requests-Asked claim VerificationStatus.unverifiable h =
      one_request-Asked _ claim _ _ refl h
  generate_critic_requests-Asked claim VerificationStatus.stale h =
      one_request-Asked _ claim _ _ refl h

  pub made_result :
      (x : VerificationResult D) {result : VerificationResult D}
      → check_verification lib x ≡ ok result
      → (result.critic_requests ≡ x.critic_requests)
        × (result.status ≡ x.status)
        × (result.claim_id ≡ x.claim_id)
  unfolding check_verification
  made_result x h = ground arith

  conclude_claim-Asked :
      (claim : Claim D) (b : EvidenceBundle D) (now : Datetime) {result : VerificationResult D}
      → conclude_claim lib engine claim b now ≡ ok result
      → Asked result.status result.critic_requests × (result.claim_id ≡ claim.claim_id)
  unfolding conclude_claim
  conclude_claim-Asked claim b now h =
      let score = (compute_confidence lib engine claim b now).0 in
      let status = determine_status lib engine b score now in
      let (_, _, h1) =
        >>=-eq-ok (detect_contradictions lib engine claim b.supporting b.contradicting) _ h in
      let (rs, asked, h2) = >>=-eq-ok (generate_critic_requests lib engine claim status) _ h1 in
      let (requests, same, id) = made_result _ h2 in
      (Asked-along same requests (generate_critic_requests-Asked claim status asked), id)

  -- What `verify` returns asks for research just when the claim is not verified.
  verify-Asked :
      (claim : Claim D) (given : EvidenceBundle D) (now : Datetime) {result : VerificationResult D}
      → verify lib engine claim given now ≡ ok result
      → Asked result.status result.critic_requests × (result.claim_id ≡ claim.claim_id)
  verify-Asked claim given now h =
      let (_, b, _, _, concluded) = verify_parts lib engine claim given now h in
      conclude_claim-Asked claim b now concluded

-- The decision, from the verdict and the attempts.
abbrev decision : VerificationStatus → ℕ → ℕ → CriticAssessmentStatus
decision status used most =
    if is_definitively_verified status
    then CriticAssessmentStatus.sufficient_evidence
    else if used == most
    then CriticAssessmentStatus.attempts_exhausted
    else CriticAssessmentStatus.research_required

-- The answer of `assess_critic`.
pub record Assessed {D : Type 0} (result : VerificationResult D) (used most : ℕ)
    (a : CriticAssessment) : Type 0 where
  pub same_claim : a.claim_id ≡ result.claim_id
  pub sufficient_iff :
      (a.status ≡ CriticAssessmentStatus.sufficient_evidence)
      ↔ (result.status ≡ VerificationStatus.verified)
  pub exhausted_iff :
      (a.status ≡ CriticAssessmentStatus.attempts_exhausted)
      ↔ ((result.status ≢ VerificationStatus.verified) × (used ≡ most))
  pub research_iff :
      (a.status ≡ CriticAssessmentStatus.research_required)
      ↔ ((result.status ≢ VerificationStatus.verified) × (used < most))
  pub requests_iff :
      (no_requests a.requests ≡ false) ↔ (a.status ≡ CriticAssessmentStatus.research_required)
  pub at_most_one : length a.requests ≤ 1
  pub budget : All (λ r. r.max_attempts ≡ most) a.requests

assess-Asked :
    {D : Type 0} (result : VerificationResult D) (used most : ℕ)
    → Asked result.status result.critic_requests
    → is_empty (strip result.claim_id) ≡ false
    → 1 ≤ most
    → most ≤ 10
    → used ≤ most
    → assess_critic result used most
      ≡ ok (record {
        claim_id = result.claim_id;
        status = decision result.status used most;
        attempts_used = used;
        max_attempts = most;
        requests =
            if is_definitively_verified result.status || used == most
            then []
            else set_attempts most result.critic_requests;
      })
unfolding assess_critic check_assessment
assess-Asked result used most asked named low high within = ground (
  arith,
  asked.none_iff,
  with_attempts-IsChecked most result.critic_requests low high asked.checked,
  no_requests-set_attempts most result.critic_requests,
)

length-set_attempts : (m : ℕ) (rs : List CriticRequest) → length (set_attempts m rs) ≡ length rs
length-set_attempts m [] = refl
length-set_attempts m (r ∷ rs) = omega (arith, length-set_attempts m rs)

nothing_or :
    (P : List CriticRequest → Type 0) (b : Bool) (rs : List CriticRequest)
    → P []
    → P rs
    → P (if b then [] else rs)
nothing_or P true rs h k = h
nothing_or P false rs h k = k

Assessed-decision :
    {D : Type 0} (result : VerificationResult D) (used most : ℕ)
    → Asked result.status result.critic_requests
    → used ≤ most
    → (requests : List CriticRequest)
    → requests ≡ (
        if is_definitively_verified result.status || used == most
        then []
        else set_attempts most result.critic_requests)
    → Assessed result used most (record {
      claim_id = result.claim_id;
      status = decision result.status used most;
      attempts_used = used;
      max_attempts = most;
      requests = requests;
    })
Assessed-decision result used most asked within requests e = record {
  same_claim = refl;
  sufficient_iff = ground arith;
  exhausted_iff = ground arith;
  research_iff = ground arith;
  requests_iff =
      ground (arith, asked.none_iff, no_requests-set_attempts most result.critic_requests);
  at_most_one =
      subst (λ l. length l ≤ 1) (sym e)
        (nothing_or (λ l. length l ≤ 1) (is_definitively_verified result.status || used == most) _
          (omega arith) (rw (length-set_attempts most result.critic_requests) asked.at_most_one));
  budget = subst (All (λ r. r.max_attempts ≡ most)) (sym e) (
      nothing_or (All (λ r. r.max_attempts ≡ most))
        (is_definitively_verified result.status || used == most) _ tt
        (set_attempts-budget most result.critic_requests));
}

module _ {D : Type 0} (lib : Library D) (engine : VerificationEngine D) where
  -- `assess_critic` raises nothing on what `verify` returns, for a claim identifier that is not blank and
  -- attempts within a budget of 1 to 10: the evidence is sufficient just when the claim is verified, the
  -- attempts are exhausted just when it is not and all are used, and otherwise research is required, by
  -- exactly one request with that budget.
  pub assess_critic-verify :
      (claim : Claim D) (given : EvidenceBundle D) (now : Datetime) {result : VerificationResult D}
      (used most : ℕ)
      → verify lib engine claim given now ≡ ok result
      → is_empty (strip claim.claim_id) ≡ false
      → 1 ≤ most
      → most ≤ 10
      → used ≤ most
      → (a : CriticAssessment) × (assess_critic result used most ≡ ok a)
        × Assessed result used most a
  assess_critic-verify claim given now {result} used most h named low high within =
      let (asked, same) = verify-Asked lib engine claim given now h in
      (
        _,
        assess-Asked result used most asked (ap (λ id. is_empty (strip id)) same ∙ named) low high
            within,
        Assessed-decision result used most asked within _ refl,
      )
