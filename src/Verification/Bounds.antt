-- ===== src/Verification/Bounds.antt =====
-- The bounds of the score, and of the text that a critic's request carries
-- (src/financial_intelligence/domain/verification/engine.py).
use agentic_equity_research.Prelude.{
  ◌≤◌, ◌<◌, ◌≡◌, refl, ap, ◌∙◌, true, inl, inr, ◌⊎◌, List, [], ◌∷◌, ◌++◌, ok, arith, >>=-eq-ok,
}
use agentic_equity_research.Text.{Text, text}
use agentic_equity_research.Text.Ink.{ink, ink-append, length-normalize}
use agentic_equity_research.Task.{Datetime}
use agentic_equity_research.Verification.{
  Library, Claim, EvidenceRef, EvidenceBundle, VerificationStatus, VerificationResult,
  CriticRequest, check_request,
}
use agentic_equity_research.Verification.Score.{
  VerificationEngine, confidence_of, compute_confidence, clamp, scored,
}
use agentic_equity_research.Verification.Engine.{
  one_request, generate_critic_requests, detect_contradictions, determine_status, conclude_claim,
  verify,
}
use agentic_equity_research.Verification.Critic.{made_result}
use agentic_equity_research.Verification.Verdicts.{verify_parts}

-- The order of the decimals at 0 and 1.
pub record Ordered {D : Type 0} (lib : Library D) : Type 0 where
  pub zero_le_zero : lib.le (lib.literal 0 0) (lib.literal 0 0) ≡ true
  pub zero_le_one : lib.le (lib.literal 0 0) (lib.literal 1 0) ≡ true
  pub one_le_one : lib.le (lib.literal 1 0) (lib.literal 1 0) ≡ true

module _ {D : Type 0} (lib : Library D) where
  abbrev pub IsScore : D → Type 0
  IsScore d = (lib.le (lib.literal 0 0) d ≡ true) × (lib.le d (lib.literal 1 0) ≡ true)

  clamp-IsScore : Ordered lib → (d : D) → IsScore (clamp lib d)
  unfolding clamp
  clamp-IsScore o d = ground (arith, o.zero_le_zero, o.zero_le_one, o.one_le_one)

module _ {D : Type 0} (lib : Library D) (engine : VerificationEngine D) where
  confidence_of-IsScore :
      Ordered lib
      → (claim : Claim D) (b : EvidenceBundle D) (now : Datetime) (rs : List (EvidenceRef D))
      → IsScore lib (confidence_of lib engine claim b now rs).0
  unfolding confidence_of scored
  confidence_of-IsScore o claim b now [] = (o.zero_le_zero, o.zero_le_one)
  confidence_of-IsScore o claim b now (r ∷ rs) = clamp-IsScore lib o _

  -- The score is between 0 and 1, whatever the evidence and the weights; without supporting evidence it
  -- is 0, with no factor.
  pub compute_confidence-IsScore :
      Ordered lib
      → (claim : Claim D) (b : EvidenceBundle D) (now : Datetime)
      → IsScore lib (compute_confidence lib engine claim b now).0
        × (b.supporting ≡ [] → compute_confidence lib engine claim b now ≡ (lib.literal 0 0, []))
  unfolding compute_confidence confidence_of
  compute_confidence-IsScore o claim b now = (
    confidence_of-IsScore o claim b now b.supporting,
    λ e. ap (confidence_of lib engine claim b now) e,
  )

  one_request-ink :
      (claim : Claim D) (reason prefix : Text) {rs : List CriticRequest}
      → one_request lib engine claim reason (prefix ++ claim.claim_text) ≡ ok rs
      → ink claim.claim_text ≤ 500
  unfolding one_request check_request
  one_request-ink claim reason prefix h =
      ground
        (arith, ink-append prefix claim.claim_text, length-normalize (prefix ++ claim.claim_text))

  generate_critic_requests-ink :
      (claim : Claim D) (status : VerificationStatus) {rs : List CriticRequest}
      → generate_critic_requests lib engine claim status ≡ ok rs
      → (status ≡ VerificationStatus.verified) ⊎ (ink claim.claim_text ≤ 500)
  unfolding generate_critic_requests
  generate_critic_requests-ink claim VerificationStatus.verified h = inl refl
  generate_critic_requests-ink claim VerificationStatus.partially_verified h =
      inr (one_request-ink claim _ (text "Find stronger corroborating evidence for: ") h)
  generate_critic_requests-ink claim VerificationStatus.contradicted h =
      inr (one_request-ink claim _ (text "Verify with authoritative source: ") h)
  generate_critic_requests-ink claim VerificationStatus.conflicting h =
      inr (one_request-ink claim _ (text "Resolve contradiction for: ") h)
  generate_critic_requests-ink claim VerificationStatus.unverifiable h =
      inr (one_request-ink claim _ (text "Find evidence for: ") h)
  generate_critic_requests-ink claim VerificationStatus.stale h =
      inr (one_request-ink claim _ (text "Find recent data for: ") h)

  conclude_claim-ink :
      (claim : Claim D) (b : EvidenceBundle D) (now : Datetime) {result : VerificationResult D}
      → conclude_claim lib engine claim b now ≡ ok result
      → (result.status ≡ VerificationStatus.verified) ⊎ (ink claim.claim_text ≤ 500)
  unfolding conclude_claim
  conclude_claim-ink claim b now h =
      let status =
        determine_status lib engine b (compute_confidence lib engine claim b now).0 now in
      let (_, _, h1) =
        >>=-eq-ok (detect_contradictions lib engine claim b.supporting b.contradicting) _ h in
      let (_, asked, h2) = >>=-eq-ok (generate_critic_requests lib engine claim status) _ h1 in
      let (_, same, _) = made_result lib engine _ h2 in
      elim (generate_critic_requests-ink claim status asked) [
        | inl e ↦ inl (same ∙ e)
        | inr le ↦ inr le
      ]

  -- For a claim whose text has more than 500 characters that are not spaces, `verify` returns only the
  -- verdict VERIFIED: with any other it raises, since the text is copied into a request of at most 500.
  pub verify-long_claim :
      (claim : Claim D) (given : EvidenceBundle D) (now : Datetime) {result : VerificationResult D}
      → verify lib engine claim given now ≡ ok result
      → 500 < ink claim.claim_text
      → result.status ≡ VerificationStatus.verified
  verify-long_claim claim given now h long =
      let (_, b, _, _, concluded) = verify_parts lib engine claim given now h in
      elim (conclude_claim-ink claim b now concluded) [ inl e ↦ e | inr le ↦ absurd (omega arith) ]
