-- ===== src/Verification/Classes.antt =====
-- How `classify` splits the evidence, and what a supporting reference of a numeric claim is.
use agentic_equity_research.Prelude.{
  ◌+◌, ◌≡◌, refl, Bool, true, inl, inr, ◌⊎◌, ◌≢◌, sym, Option, none, some, List, [], ◌∷◌, count,
  keep, All, All-map, ok, arith, ap, ◌∙◌, Option-cases, Bool-cases,
}
use agentic_equity_research.Text.{Text, strip, same_text}
use agentic_equity_research.Text.Same.{same_text-eq}
use agentic_equity_research.Verification.{
  ClaimType, Value, Library, Claim, EvidenceRef, EvidenceBundle, check_bundle,
}
use agentic_equity_research.Verification.Match.{
  is_some_finite, finite_of, agrees, MatchOutcome, coerce_finite_decimal, context_matches,
  compare_values, evaluate_match, outcome, is_supporting, is_contradicting, is_neutral, classify,
  same_number,
}

keep-All :
    {A : Type 0} (P : A → Type 0) (test : A → Bool) (xs : List A)
    → ((a : A) → test a ≡ true → P a)
    → All P (keep test xs)
keep-All P test [] f = tt
keep-All P test (x ∷ xs) f = elim (Bool-cases (test x)) [
  | inl e ↦ rw (e, All, keep) (f x e, keep-All P test xs f)
  | inr e ↦ rw (e, keep) (keep-All P test xs f)
]

count-split :
    {A : Type 0} (o : A → MatchOutcome) (p : A → Bool) (xs : List A)
    → count p (keep (λ x. is_supporting (o x)) xs)
        + count p (keep (λ x. is_contradicting (o x)) xs)
        + count p (keep (λ x. is_neutral (o x)) xs)
      ≡ count p xs
count-split o p [] = refl
count-split o p (x ∷ xs) = ground (arith, count-split o p xs)

module _ {D : Type 0} (lib : Library D) where
  -- The value is the decimal `d`, or a text that is read as it, and `d` is finite.
  abbrev pub IsNumber : Option (Value D) → D → Type 0
  IsNumber v d =
      ((v ≡ some (Value.decimal d))
        ⊎ ((s : Text) × (v ≡ some (Value.string s)) × (lib.parse (strip s) ≡ some d)))
      × (lib.is_finite d ≡ true)

  finite_parts :
      (d : D) {e : D} → is_some_finite lib d ≡ some e → (d ≡ e) × (lib.is_finite d ≡ true)
  finite_parts d h = ground arith

  parsed_parts :
      (o : Option D) {e : D} → finite_of lib o ≡ some e → (o ≡ some e) × (lib.is_finite e ≡ true)
  parsed_parts none h = cc
  parsed_parts (some d) h =
      let (same, finite) = finite_parts d h in (ap some same, ap lib.is_finite (sym same) ∙ finite)

  coerce_finite_decimal-IsNumber :
      (v : Option (Value D)) {d : D} → coerce_finite_decimal lib v ≡ some d → IsNumber v d
  unfolding coerce_finite_decimal
  coerce_finite_decimal-IsNumber none h = cc
  coerce_finite_decimal-IsNumber (some (Value.decimal x)) h =
      let (same, finite) = finite_parts x h in
      (inl (ap (λ y. some (Value.decimal y)) same), ap lib.is_finite (sym same) ∙ finite)
  coerce_finite_decimal-IsNumber (some (Value.string s)) {d} h =
      let read : finite_of lib (lib.parse (strip s)) ≡ some d = ground arith in
      let (parsed, finite) = parsed_parts (lib.parse (strip s)) read in
      (inr (s, refl, parsed), finite)
  coerce_finite_decimal-IsNumber (some (Value.moment t)) h = cc

  -- If the claim expects a text that is not empty, the reference has one that `f` does not tell apart.
  abbrev pub Agree : (Text → Text) → Option Text → Option Text → Type 0
  Agree f expected extracted =
      (t : Text) → expected ≡ some t → t ≢ [] → (u : Text) × (extracted ≡ some u) × (f t ≡ f u)

  agrees-Agree :
      (f : Text → Text) (expected extracted : Option Text)
      → agrees lib (λ a b. same_text (f a) (f b)) expected extracted ≡ true
      → Agree f expected extracted
  agrees-Agree f none x h t q ne = cc
  agrees-Agree f (some []) x h t q ne = absurd (ne (cc))
  agrees-Agree f (some (c ∷ cs)) none h t q ne = cc
  agrees-Agree f (some (c ∷ cs)) (some y) h t q ne =
      (y, refl, ap f (cc) ∙ same_text-eq (f (c ∷ cs)) (f y) h)

  context_parts :
      (claim : Claim D) (r : EvidenceRef D)
      → context_matches lib claim r ≡ true
      → Agree lib.lower claim.expected_unit r.extracted_unit
        × Agree lib.lower claim.expected_currency r.extracted_currency
        × Agree (λ s. s) claim.expected_period r.extracted_period
  unfolding context_matches
  context_parts claim r h = (
    agrees-Agree lib.lower claim.expected_unit r.extracted_unit (ground arith),
    agrees-Agree lib.lower claim.expected_currency r.extracted_currency (ground arith),
    agrees-Agree (λ s. s) claim.expected_period r.extracted_period (ground arith),
  )

  -- The value of the reference is a finite number that equals the finite one that is expected, and it
  -- has the unit and the currency, but for case, and the period that the claim expects, if any.
  pub record Confirms (claim : Claim D) (r : EvidenceRef D) : Type 0 where
    pub expected : D
    pub extracted : D
    pub expected_is : IsNumber claim.expected_value expected
    pub extracted_is : IsNumber r.extracted_value extracted
    pub equal : lib.same expected extracted ≡ true
    pub unit : Agree lib.lower claim.expected_unit r.extracted_unit
    pub currency : Agree lib.lower claim.expected_currency r.extracted_currency
    pub period : Agree (λ s. s) claim.expected_period r.extracted_period

  numbers_equal :
      (a b : Option D)
      → same_number lib a b ≡ true
      → (d : D) × (e : D) × (a ≡ some d) × (b ≡ some e) × (lib.same d e ≡ true)
  numbers_equal (some d) (some e) h = (d, e, refl, refl, h)
  numbers_equal (some d) none h = cc
  numbers_equal none b h = cc

  compare_numeric :
      (claim : Claim D) (v : Value D) (r : EvidenceRef D)
      → claim.claim_type ≡ ClaimType.numeric
      → compare_values lib claim v r ≡ MatchOutcome.supporting
      → (same_number lib
            (coerce_finite_decimal lib (some v))
            (coerce_finite_decimal lib r.extracted_value)
          ≡ true)
        × (context_matches lib claim r ≡ true)
  unfolding compare_values
  compare_numeric claim v r numeric h = ground arith

  outcome-some :
      (claim : Claim D) (r : EvidenceRef D)
      → claim.claim_type ≡ ClaimType.numeric
      → outcome lib claim r ≡ MatchOutcome.supporting
      → (v : Value D) × (claim.expected_value ≡ some v)
        × (compare_values lib claim v r ≡ MatchOutcome.supporting)
  unfolding outcome evaluate_match
  outcome-some claim r numeric h = elim (Option-cases claim.expected_value) [
    | inl e ↦ ground arith
    | inr (v, e) ↦ (v, e, ground arith)
  ]

  pub outcome_numeric :
      (claim : Claim D) (r : EvidenceRef D)
      → claim.claim_type ≡ ClaimType.numeric
      → outcome lib claim r ≡ MatchOutcome.supporting
      → Confirms claim r
  outcome_numeric claim r numeric h =
      let (v, e, compared) = outcome-some claim r numeric h in
      let (same, context) = compare_numeric claim v r numeric compared in
      let (unit, currency, period) = context_parts claim r context in
      let (d, x, d_is, x_is, equal) =
        numbers_equal (coerce_finite_decimal lib (some v))
          (coerce_finite_decimal lib r.extracted_value) same in
      record {
        expected = d;
        extracted = x;
        expected_is =
            coerce_finite_decimal-IsNumber claim.expected_value
              (ap (coerce_finite_decimal lib) e ∙ d_is);
        extracted_is = coerce_finite_decimal-IsNumber r.extracted_value x_is;
        equal = equal;
        unit = unit;
        currency = currency;
        period = period;
      }

  pub supporting_outcome : (o : MatchOutcome) → is_supporting o ≡ true → o ≡ MatchOutcome.supporting
  supporting_outcome MatchOutcome.supporting h = refl
  supporting_outcome _ h = cc

  pub classify_parts :
      (claim : Claim D) (refs : List (EvidenceRef D)) {b : EvidenceBundle D}
      → classify lib claim refs ≡ ok b
      → (b.evidence_refs ≡ refs)
        × (b.supporting ≡ keep (λ r. is_supporting (outcome lib claim r)) refs)
        × (b.contradicting ≡ keep (λ r. is_contradicting (outcome lib claim r)) refs)
        × (b.neutral ≡ keep (λ r. is_neutral (outcome lib claim r)) refs)
  unfolding classify check_bundle
  classify_parts claim refs h = ground arith

  contradicting_outcome :
      (o : MatchOutcome) → is_contradicting o ≡ true → o ≡ MatchOutcome.contradicting
  contradicting_outcome MatchOutcome.contradicting h = refl
  contradicting_outcome _ h = cc

  neutral_outcome : (o : MatchOutcome) → is_neutral o ≡ true → o ≡ MatchOutcome.neutral
  neutral_outcome MatchOutcome.neutral h = refl
  neutral_outcome _ h = cc

  -- `classify` keeps the references and distributes them over the three lists: whatever is counted
  -- among the references is found as often in the three lists together. The outcome of each reference
  -- is the one of its list, so no reference is in two of them.
  pub classify_splits :
      (claim : Claim D) (refs : List (EvidenceRef D)) {b : EvidenceBundle D}
      → classify lib claim refs ≡ ok b
      → (b.evidence_refs ≡ refs)
        × ((p : EvidenceRef D → Bool)
            → count p b.supporting + count p b.contradicting + count p b.neutral ≡ count p refs)
        × All (λ r. outcome lib claim r ≡ MatchOutcome.supporting) b.supporting
        × All (λ r. outcome lib claim r ≡ MatchOutcome.contradicting) b.contradicting
        × All (λ r. outcome lib claim r ≡ MatchOutcome.neutral) b.neutral
  classify_splits claim refs {b} h =
      let (same, s, c, n) = classify_parts claim refs h in
      (
        same,
        λ p. rw (s, c, n) (count-split (outcome lib claim) p refs),
        rw s (
            keep-All (λ r. outcome lib claim r ≡ MatchOutcome.supporting)
              (λ r. is_supporting (outcome lib claim r)) refs
              (λ r e. supporting_outcome (outcome lib claim r) e)),
        rw c (
            keep-All (λ r. outcome lib claim r ≡ MatchOutcome.contradicting)
              (λ r. is_contradicting (outcome lib claim r)) refs
              (λ r e. contradicting_outcome (outcome lib claim r) e)),
        rw n (
            keep-All (λ r. outcome lib claim r ≡ MatchOutcome.neutral)
              (λ r. is_neutral (outcome lib claim r)) refs
              (λ r e. neutral_outcome (outcome lib claim r) e)),
      )

  -- Each supporting reference of a numeric claim has a finite number that equals the expected one, which
  -- is finite too, and the unit, the currency and the period that the claim expects, where it expects
  -- one: unit and currency but for case.
  pub classify_numeric :
      (claim : Claim D) (refs : List (EvidenceRef D)) {b : EvidenceBundle D}
      → claim.claim_type ≡ ClaimType.numeric
      → classify lib claim refs ≡ ok b
      → All (Confirms claim) b.supporting
  classify_numeric claim refs {b} numeric h =
      let (_, _, all, _, _) = classify_splits claim refs h in
      All-map (λ r. outcome lib claim r ≡ MatchOutcome.supporting) (Confirms claim) b.supporting
        (λ r e. outcome_numeric claim r numeric e) all
