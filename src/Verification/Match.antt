-- ===== src/Verification/Match.antt =====
-- `EvidenceBundle.classify` of src/financial_intelligence/domain/verification/evidence.py.
use agentic_equity_research.Prelude.{
  ℕ, ◌/◌, Bool, true, false, not, ◌&&◌, ◌||◌, Option, none, some, List, [], ◌∷◌, ltb, leb, ◌==◌,
  length, keep, count, map, Result, if◌then◌else◌,
}
use agentic_equity_research.Text.{
  Text, text, strip, is_empty, split_from, words, same_text, has_text, unique_texts, ends_with,
}
use agentic_equity_research.Verification.{
  ClaimType, Value, Library, Claim, EvidenceRef, EvidenceBundle, check_bundle,
}

pub data Polarity : Type 0 where
  clear conflict ambiguous : Polarity

pub data MatchOutcome : Type 0 where
  supporting contradicting neutral : MatchOutcome

abbrev pub is_supporting : MatchOutcome → Bool
is_supporting MatchOutcome.supporting = true
is_supporting _ = false

abbrev pub is_contradicting : MatchOutcome → Bool
is_contradicting MatchOutcome.contradicting = true
is_contradicting _ = false

abbrev pub is_neutral : MatchOutcome → Bool
is_neutral MatchOutcome.neutral = true
is_neutral _ = false

-- _NEGATION_MARKERS
unfoldable pub negation_markers : List Text
unfolding text
negation_markers =
    text "not"
    ∷ text "never"
    ∷ text "no"
    ∷ text "cannot"
    ∷ text "neither"
    ∷ text "nor"
    ∷ text "denies"
    ∷ text "denied"
    ∷ text "false"
    ∷ text "incorrect"
    ∷ []

-- _HEDGE_MARKERS
unfoldable pub hedge_markers : List Text
unfolding text
hedge_markers =
    text "may"
    ∷ text "might"
    ∷ text "could"
    ∷ text "allegedly"
    ∷ text "reportedly"
    ∷ text "possibly"
    ∷ text "rumored"
    ∷ text "unconfirmed"
    ∷ text "purportedly"
    ∷ text "supposedly"
    ∷ text "reputedly"
    ∷ []

-- The set `stop` of `supports_claim`.
unfoldable pub stop_words : List Text
unfolding text
stop_words =
    text "the"
    ∷ text "a"
    ∷ text "an"
    ∷ text "and"
    ∷ text "or"
    ∷ text "but"
    ∷ text "in"
    ∷ text "on"
    ∷ text "at"
    ∷ text "to"
    ∷ text "for"
    ∷ text "of"
    ∷ text "with"
    ∷ text "by"
    ∷ text "is"
    ∷ text "was"
    ∷ text "were"
    ∷ text "are"
    ∷ text "be"
    ∷ text "been"
    ∷ text "being"
    ∷ text "have"
    ∷ text "has"
    ∷ text "had"
    ∷ text "do"
    ∷ text "does"
    ∷ text "did"
    ∷ text "will"
    ∷ text "would"
    ∷ text "could"
    ∷ text "should"
    ∷ text "may"
    ∷ text "might"
    ∷ text "must"
    ∷ text "can"
    ∷ text "this"
    ∷ text "that"
    ∷ text "these"
    ∷ text "those"
    ∷ []

-- The characters of _TOKEN_STRIP_CHARS: .,;:!?"'()[]{}
abbrev is_punctuation : ℕ → Bool
is_punctuation c =
    c == 46
    || c == 44
    || c == 59
    || c == 58
    || c == 33
    || c == 63
    || c == 34
    || c == 39
    || c == 40
    || c == 41
    || c == 91
    || c == 93
    || c == 123
    || c == 125

unfoldable pub strip_left : Text → Text
strip_left [] = []
strip_left (c ∷ cs) = elim (is_punctuation c) [ true ↦ strip_left cs | false ↦ c ∷ cs ]

abbrev punctuated : ℕ → Text → Text
punctuated c [] = elim (is_punctuation c) [ true ↦ [] | false ↦ c ∷ [] ]
punctuated c (d ∷ ds) = c ∷ d ∷ ds

unfoldable pub strip_right : Text → Text
strip_right [] = []
strip_right (c ∷ cs) = punctuated c (strip_right cs)

-- token.strip(_TOKEN_STRIP_CHARS)
abbrev strip_token : Text → Text
strip_token token = strip_right (strip_left token)

abbrev is_negation : Text → Bool
is_negation token = has_text token negation_markers || ends_with token (text "n't")

abbrev pub is_some_finite : {D : Type 0} → Library D → D → Option D
is_some_finite lib d = if lib.is_finite d then some d else none

abbrev pub same_type : ClaimType → ClaimType → Bool
same_type ClaimType.factual ClaimType.factual = true
same_type ClaimType.numeric ClaimType.numeric = true
same_type ClaimType.date ClaimType.date = true
same_type ClaimType.source_authority ClaimType.source_authority = true
same_type _ _ = false

abbrev pub is_numeric : ClaimType → Bool
is_numeric ClaimType.numeric = true
is_numeric _ = false

module _ {D : Type 0} (lib : Library D) where
  -- `_tokenize`
  unfoldable pub tokenize : Text → List Text
  unfolding split_from strip_left strip_right
  tokenize content = map strip_token (words (lib.lower content))

  unfoldable pub negation_count : List Text → ℕ
  unfolding same_text negation_markers text
  negation_count tokens = count is_negation tokens

  unfoldable pub hedge_count : List Text → ℕ
  unfolding same_text hedge_markers
  hedge_count tokens = count (λ token. has_text token hedge_markers) tokens

  -- `_assess_polarity`
  unfoldable pub assess_polarity : Text → Text → Polarity
  unfolding tokenize negation_count hedge_count
  assess_polarity claim_text snippet =
      let claim_tokens = tokenize claim_text in
      let snippet_tokens = tokenize snippet in
      let claim_negations = negation_count claim_tokens in
      let snippet_negations = negation_count snippet_tokens in
      if ltb 0 claim_negations && ltb 0 snippet_negations
      then Polarity.ambiguous
      else if not (claim_negations == snippet_negations)
      then Polarity.conflict
      else if ltb 0 (hedge_count claim_tokens) || ltb 0 (hedge_count snippet_tokens)
      then Polarity.ambiguous
      else Polarity.clear

  abbrev pub finite_of : Option D → Option D
  finite_of none = none
  finite_of (some d) = is_some_finite lib d

  -- `_coerce_finite_decimal`
  unfoldable pub coerce_finite_decimal : Option (Value D) → Option D
  unfolding strip
  coerce_finite_decimal (some (Value.decimal d)) = is_some_finite lib d
  coerce_finite_decimal (some (Value.string s)) =
      let content = strip s in if is_empty content then none else finite_of (lib.parse content)
  coerce_finite_decimal _ = none

  -- set(text.lower().split()) - stop
  unfoldable pub keywords : Text → List Text
  unfolding split_from unique_texts stop_words
  keywords content =
      keep (λ w. not (has_text w stop_words)) (unique_texts [] (words (lib.lower content)))

  abbrev enough : List Text → List Text → Bool
  enough [] snippet_kw = false
  enough (k ∷ ks) snippet_kw =
      let n = length (k ∷ ks) / 2 in
      leb (if ltb 1 n then n else 1) (count (λ w. has_text w snippet_kw) (k ∷ ks))

  -- EvidenceRef.supports_claim
  unfoldable pub supports_claim : EvidenceRef D → Text → ClaimType → Bool
  unfolding keywords
  supports_claim ref claim_text claim_type =
      if not (same_type ref.claim_type claim_type)
      then false
      else enough (keywords claim_text) (keywords ref.raw_snippet)

  -- not expected or (extracted is not None and same(expected, extracted))
  abbrev pub agrees : (Text → Text → Bool) → Option Text → Option Text → Bool
  agrees test (some e) (some x) = is_empty e || test e x
  agrees test (some e) none = is_empty e
  agrees test none _ = true

  abbrev pub same_lower : Text → Text → Bool
  same_lower a b = same_text (lib.lower a) (lib.lower b)

  -- `_context_matches`
  unfoldable pub context_matches : Claim D → EvidenceRef D → Bool
  unfolding same_text
  context_matches claim ref =
      agrees same_lower claim.expected_unit ref.extracted_unit
      && agrees same_lower claim.expected_currency ref.extracted_currency
      && agrees same_text claim.expected_period ref.extracted_period

  abbrev pub same_number : Option D → Option D → Bool
  same_number (some a) (some b) = lib.same a b
  same_number _ _ = false

  abbrev is_infinite : Option (Value D) → Bool
  is_infinite (some (Value.decimal d)) = not (lib.is_finite d)
  is_infinite _ = false

  -- str(value)
  abbrev pub str_value : Value D → Text
  str_value (Value.string s) = s
  str_value (Value.decimal d) = lib.str_decimal d
  str_value (Value.moment t) = lib.str_datetime t

  abbrev same_shown : Value D → Option (Value D) → Bool
  same_shown e none = false
  same_shown e (some x) =
      same_text (lib.lower (strip (str_value x))) (lib.lower (strip (str_value e)))

  abbrev by_polarity : Polarity → MatchOutcome
  by_polarity Polarity.conflict = MatchOutcome.contradicting
  by_polarity Polarity.ambiguous = MatchOutcome.neutral
  by_polarity Polarity.clear = MatchOutcome.supporting

  abbrev if_supporting : Bool → MatchOutcome
  if_supporting b = if b then MatchOutcome.supporting else MatchOutcome.contradicting

  -- The part of `_evaluate_match` for a claim with an expected value.
  unfoldable pub compare_values : Claim D → Value D → EvidenceRef D → MatchOutcome
  unfolding coerce_finite_decimal context_matches strip same_text
  compare_values claim expected ref =
      if is_numeric claim.claim_type
      then if_supporting (
          same_number (coerce_finite_decimal (some expected))
            (coerce_finite_decimal ref.extracted_value)
          && context_matches claim ref)
      else if is_infinite (some expected) || is_infinite ref.extracted_value
      then MatchOutcome.contradicting
      else if_supporting (same_shown expected ref.extracted_value && context_matches claim ref)

  -- `_evaluate_match`
  unfoldable pub evaluate_match : Claim D → EvidenceRef D → MatchOutcome
  unfolding assess_polarity compare_values
  evaluate_match claim ref = elim claim.expected_value [
    | none ↦
        if is_numeric claim.claim_type
        then MatchOutcome.contradicting
        else by_polarity (assess_polarity claim.claim_text ref.raw_snippet)
    | some expected ↦ compare_values claim expected ref
  ]

  -- The list that `classify` appends a reference to.
  unfoldable pub outcome : Claim D → EvidenceRef D → MatchOutcome
  unfolding supports_claim evaluate_match
  outcome claim ref =
      if supports_claim ref claim.claim_text claim.claim_type
      then evaluate_match claim ref
      else MatchOutcome.neutral

  -- EvidenceBundle.classify: each list keeps the order of the references.
  unfoldable pub classify : Claim D → List (EvidenceRef D) → Result (EvidenceBundle D)
  unfolding outcome check_bundle
  classify claim refs = check_bundle (record {
    claim_id = claim.claim_id;
    evidence_refs = refs;
    supporting = keep (λ r. is_supporting (outcome claim r)) refs;
    contradicting = keep (λ r. is_contradicting (outcome claim r)) refs;
    neutral = keep (λ r. is_neutral (outcome claim r)) refs;
  })
