-- ===== src/Verification/Verdicts.antt =====
-- When `verify` says VERIFIED (src/financial_intelligence/domain/verification/engine.py).
use agentic_equity_research.Prelude.{
  Elem-keep, keep-Elem, any-Elem, ◌≤◌, ◌≡◌, refl, sym, ap, ◌∙◌, Bool, true, not, inl, inr, List, [],
  ◌∷◌, any, keep, Elem, ok, arith, Bool-cases, >>=-eq-ok, if◌then◌else◌,
}
use mathlib.Core.Path.{subst}
use agentic_equity_research.Text.{Text, has_text, fail_if, same_text}
use agentic_equity_research.Task.{Datetime}
use agentic_equity_research.Verification.{
  ClaimType, Library, Claim, EvidenceRef, EvidenceBundle, check_bundle, VerificationStatus,
  VerificationResult, check_verification,
}
use agentic_equity_research.Verification.Match.{
  MatchOutcome, outcome, is_supporting, is_contradicting, classify,
}
use agentic_equity_research.Verification.Score.{VerificationEngine, is_recent, compute_confidence}
use agentic_equity_research.Verification.Engine.{
  no_texts, drop_future, future_ids, no_refs, seen_at, determine_status, conclude_claim, verify,
}
use agentic_equity_research.Verification.Members.{has_text-future_ids}
use agentic_equity_research.Verification.Classes.{
  Confirms, outcome_numeric, supporting_outcome, classify_parts,
}

keep-all : {A : Type 0} (xs : List A) → keep (λ x. true) xs ≡ xs
keep-all [] = refl
keep-all (x ∷ xs) = ap (λ l. x ∷ l) (keep-all xs)

-- What is left of a list when the future references go.
abbrev present : {D : Type 0} → List Text → List (EvidenceRef D) → List (EvidenceRef D)
present future rs = keep (λ r. not (has_text r.evidence_id future)) rs

drop_parts :
    {D : Type 0} (future : List Text) (c : EvidenceBundle D) (neutral : List (EvidenceRef D))
    {b : EvidenceBundle D}
    → (if no_texts future
        then ok c
        else check_bundle (record c {
          supporting = present future c.supporting;
          contradicting = present future c.contradicting;
          neutral = neutral;
        }))
      ≡ ok b
    → (b.supporting ≡ present future c.supporting)
      × (b.contradicting ≡ present future c.contradicting)
unfolding check_bundle
drop_parts [] c neutral h =
    (ground (arith, keep-all c.supporting), ground (arith, keep-all c.contradicting))
drop_parts (x ∷ xs) c neutral h = ground arith

drop_future_parts :
    {D : Type 0} (c : EvidenceBundle D) (now : Datetime) {b : EvidenceBundle D}
    → drop_future c now ≡ ok b
    → (b.supporting ≡ present (future_ids c.evidence_refs now) c.supporting)
      × (b.contradicting ≡ present (future_ids c.evidence_refs now) c.contradicting)
unfolding drop_future
drop_future_parts c now h = drop_parts (future_ids c.evidence_refs now) c _ h

module _ {D : Type 0} (lib : Library D) (engine : VerificationEngine D) where
  conclude_claim_parts :
      (claim : Claim D) (b : EvidenceBundle D) (now : Datetime) {result : VerificationResult D}
      → conclude_claim lib engine claim b now ≡ ok result
      → (result.confidence_score ≡ (compute_confidence lib engine claim b now).0)
        × (result.status
            ≡ determine_status lib engine b (compute_confidence lib engine claim b now).0 now)
  unfolding conclude_claim check_verification
  conclude_claim_parts claim b now h = ground arith

  verified_means :
      (b : EvidenceBundle D) (confidence : D) (now : Datetime)
      → determine_status lib engine b confidence now ≡ VerificationStatus.verified
      → (any (λ r. is_recent engine.max_evidence_age_days now (seen_at r)) b.supporting ≡ true)
        × (no_refs b.contradicting ≡ true)
        × (lib.le engine.min_confidence_for_verified confidence ≡ true)
  unfolding determine_status
  verified_means b confidence now h = ground arith

  -- The steps of a call of `verify` that returns.
  pub verify_parts :
      (claim : Claim D) (given : EvidenceBundle D) (now : Datetime) {result : VerificationResult D}
      → verify lib engine claim given now ≡ ok result
      → (c : EvidenceBundle D) × (b : EvidenceBundle D) × (classify lib claim given.evidence_refs
          ≡ ok c)
        × (drop_future c now ≡ ok b)
        × (conclude_claim lib engine claim b now ≡ ok result)
  unfolding verify
  verify_parts claim given now h =
      let (_, _, h1) =
        >>=-eq-ok (fail_if (not now.tz_aware) "verification time must be timezone-aware") _ h in
      let (_, _, h2) =
        >>=-eq-ok
          (fail_if (not (same_text given.claim_id claim.claim_id))
            "evidence bundle claim_id does not match claim")
          _ h1 in
      let (c, classified, h3) = >>=-eq-ok (classify lib claim given.evidence_refs) _ h2 in
      let (b, dropped, concluded) = >>=-eq-ok (drop_future c now) _ h3 in
      (c, b, classified, dropped, concluded)

  -- The evidence behind a verdict of VERIFIED.
  pub record Verified (claim : Claim D) (refs : List (EvidenceRef D)) (now : Datetime) (score : D)
      : Type 0 where
    pub ref : EvidenceRef D
    pub member : Elem ref refs
    pub supports : outcome lib claim ref ≡ MatchOutcome.supporting
    pub was_retrieved : ref.retrieved_at.instant ≤ now.instant
    pub fresh : is_recent engine.max_evidence_age_days now (seen_at ref) ≡ true
    pub unopposed :
        (r : EvidenceRef D)
        → Elem r refs
        → outcome lib claim r ≡ MatchOutcome.contradicting
        → has_text r.evidence_id (future_ids refs now) ≡ true
    pub confident : lib.le engine.min_confidence_for_verified score ≡ true

  present_ref :
      (claim : Claim D) (refs : List (EvidenceRef D)) (now : Datetime) (test : MatchOutcome → Bool)
      (r : EvidenceRef D)
      → Elem r (present (future_ids refs now) (keep (λ r. test (outcome lib claim r)) refs))
      → Elem r refs × (test (outcome lib claim r) ≡ true) × (r.retrieved_at.instant ≤ now.instant)
  present_ref claim refs now test r h =
      let (kept, apart) = Elem-keep _ r _ h in
      let (member, tested) = Elem-keep _ r refs kept in
      (member, tested, has_text-future_ids r refs now member (ground arith))

  no_refs-Elem : (rs : List (EvidenceRef D)) (r : EvidenceRef D) → no_refs rs ≡ true → Elem r rs → ⊥
  no_refs-Elem [] r h k = elim k [ ]
  no_refs-Elem (x ∷ xs) r h k = cc

  opposed :
      (claim : Claim D) (refs : List (EvidenceRef D)) (now : Datetime) (r : EvidenceRef D)
      → no_refs
          (present (future_ids refs now) (keep (λ r. is_contradicting (outcome lib claim r)) refs))
        ≡ true
      → Elem r refs
      → outcome lib claim r ≡ MatchOutcome.contradicting
      → has_text r.evidence_id (future_ids refs now) ≡ true
  opposed claim refs now r h member against =
      elim (Bool-cases (has_text r.evidence_id (future_ids refs now))) [
        | inl e ↦ e
        | inr e ↦ absurd (
            no_refs-Elem _ r h (
              keep-Elem (λ r. not (has_text r.evidence_id (future_ids refs now))) r _
                (keep-Elem (λ r. is_contradicting (outcome lib claim r)) r refs member
                  (ap is_contradicting against))
                (ap not e)))
      ]

  -- The references of one outcome that are left in the bundle on which the verdict is based.
  abbrev left :
      Claim D → List (EvidenceRef D) → Datetime → (MatchOutcome → Bool) → List (EvidenceRef D)
  left claim refs now test =
      present (future_ids refs now) (keep (λ r. test (outcome lib claim r)) refs)

  bundle_parts :
      (claim : Claim D) (refs : List (EvidenceRef D)) (now : Datetime) {c b : EvidenceBundle D}
      → classify lib claim refs ≡ ok c
      → drop_future c now ≡ ok b
      → (b.supporting ≡ left claim refs now is_supporting)
        × (b.contradicting ≡ left claim refs now is_contradicting)
  bundle_parts claim refs now {c} classified dropped =
      let (same, supporting, contradicting, _) = classify_parts lib claim refs classified in
      let (s, n) = drop_future_parts c now dropped in
      (s ∙ rw (same, supporting) refl, n ∙ rw (same, contradicting) refl)

  -- A claim is VERIFIED only on the word of a reference among the evidence that supports it, was
  -- retrieved by the time of the verification and is recent; each reference that contradicts the claim
  -- bears the identifier of one that was retrieved later; and the score reaches the threshold.
  pub verify-Verified :
      (claim : Claim D) (given : EvidenceBundle D) (now : Datetime) {result : VerificationResult D}
      → verify lib engine claim given now ≡ ok result
      → result.status ≡ VerificationStatus.verified
      → Verified claim given.evidence_refs now result.confidence_score
  verify-Verified claim given now {result} h is_verified =
      let (c, b, classified, dropped, concluded) = verify_parts claim given now h in
      let (score, status) = conclude_claim_parts claim b now concluded in
      let (fresh, unopposed, confident) = verified_means b _ now (sym status ∙ is_verified) in
      let (supporting, contradicting) =
        bundle_parts claim given.evidence_refs now classified dropped in
      let (r, inside, recent) = any-Elem _ b.supporting fresh in
      let (member, supports, retrieved) =
        present_ref claim given.evidence_refs now is_supporting r
          (subst (λ l. Elem r l) supporting inside) in
      record {
        ref = r;
        member = member;
        supports = supporting_outcome lib (outcome lib claim r) supports;
        was_retrieved = retrieved;
        fresh = recent;
        unopposed = λ a inside against.
            opposed claim given.evidence_refs now a (ap no_refs (sym contradicting) ∙ unopposed)
              inside against;
        confident = rw score confident;
      }

  -- A numeric claim is VERIFIED only on a reference, retrieved by then, with a finite number that equals
  -- the finite one that is expected, and with the unit, the currency and the period that the claim
  -- expects, where it expects one: unit and currency but for case.
  pub verify-Confirms :
      (claim : Claim D) (given : EvidenceBundle D) (now : Datetime) {result : VerificationResult D}
      → claim.claim_type ≡ ClaimType.numeric
      → verify lib engine claim given now ≡ ok result
      → result.status ≡ VerificationStatus.verified
      → (r : EvidenceRef D) × Elem r given.evidence_refs
        × Confirms lib claim r
        × (r.retrieved_at.instant ≤ now.instant)
  verify-Confirms claim given now numeric h is_verified =
      let v = verify-Verified claim given now h is_verified in
      (v.ref, v.member, outcome_numeric lib claim v.ref numeric v.supports, v.was_retrieved)
