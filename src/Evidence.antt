-- ===== src/Evidence.antt =====
-- src/financial_intelligence/domain/orchestration/evidence.py: one reference for each key.
-- `isoformat` stands for `datetime.isoformat`. The text of a UUID has a fixed width, so its number
-- stands for it in a key.
use agentic_equity_research.Prelude.{
  ℕ, ◌+◌, Bool, true, false, ◌&&◌, ◌||◌, Option, none, some, List, [], ◌∷◌, any, ltb, ◌==◌, sort_by,
}
use agentic_equity_research.Text.{Text, text, same_text}
use agentic_equity_research.Task.{Datetime}
use agentic_equity_research.Outcome.{DataOrigin, TaskEvidenceRef}

unfoldable pub origin_value : DataOrigin → Text
unfolding text
origin_value DataOrigin.live = text "live"
origin_value DataOrigin.cached_live = text "cached_live"
origin_value DataOrigin.fixture = text "fixture"
origin_value DataOrigin.unavailable = text "unavailable"

-- `_s(f(value) if value is not None else None)`
abbrev pub key_part : {A : Type 0} → (A → Text) → Option A → Text
key_part f none = []
key_part f (some a) = f a

abbrev uuid_part : ℕ → Text
uuid_part n = n ∷ []

-- `str(int(tier))`: a digit from 1 to 4
abbrev tier_part : ℕ → Text
tier_part n = (48 + n) ∷ []

-- Python's order on strings and on tuples of strings.
unfoldable pub text_le : Text → Text → Bool
text_le [] t = true
text_le (c ∷ cs) [] = false
text_le (c ∷ cs) (d ∷ ds) = ltb c d || (c == d && text_le cs ds)

unfoldable pub key_le : List Text → List Text → Bool
unfolding text_le same_text
key_le [] ks = true
key_le (a ∷ as') [] = false
key_le (a ∷ as') (b ∷ bs) = (text_le a b && not_same a b) || (same_text a b && key_le as' bs)
  where
    not_same : Text → Text → Bool
    not_same x y = elim (same_text x y) [ true ↦ false | false ↦ true ]

unfoldable pub same_key : List Text → List Text → Bool
unfolding same_text
same_key [] [] = true
same_key (a ∷ as') (b ∷ bs) = same_text a b && same_key as' bs
same_key _ _ = false

module _ (isoformat : Datetime → Text) where
  unfoldable pub evidence_dedupe_key : TaskEvidenceRef → List Text
  unfolding origin_value
  evidence_dedupe_key ref =
      uuid_part ref.company_id
      ∷ key_part (λ s. s) ref.source_id
      ∷ key_part tier_part ref.authority_tier
      ∷ key_part origin_value ref.data_origin
      ∷ key_part uuid_part ref.security_id
      ∷ key_part uuid_part ref.listing_id
      ∷ key_part isoformat ref.as_of
      ∷ key_part isoformat ref.retrieved_at
      ∷ key_part (λ s. s) ref.locator
      ∷ []

  -- The loop with `seen`, over the references in order.
  unfoldable pub keep_unseen : List (List Text) → List TaskEvidenceRef → List TaskEvidenceRef
  unfolding evidence_dedupe_key same_key
  keep_unseen seen [] = []
  keep_unseen seen (ref ∷ refs) =
      let key = evidence_dedupe_key ref in
      (elim (any (same_key key) seen) [
        | true ↦ keep_unseen seen refs
        | false ↦ ref ∷ keep_unseen (key ∷ seen) refs
      ])

  unfoldable pub dedupe_evidence_refs : List TaskEvidenceRef → List TaskEvidenceRef
  unfolding keep_unseen key_le
  dedupe_evidence_refs refs =
      keep_unseen [] (sort_by (λ a b. key_le (evidence_dedupe_key a) (evidence_dedupe_key b)) refs)
