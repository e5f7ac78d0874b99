-- ===== src/Verification/Members.antt =====
-- The identifiers of a list of references.
use agentic_equity_research.Prelude.{
  ◌≤◌, ◌≡◌, refl, true, false, inl, inr, List, [], ◌∷◌, Elem, keep-Elem, ltb, arith, Bool-cases,
}
use agentic_equity_research.Text.Same.{same_text_refl}
use agentic_equity_research.Text.{has_text}
use agentic_equity_research.Task.{Datetime}
use agentic_equity_research.Verification.{EvidenceRef, evidence_ids}
use agentic_equity_research.Verification.Engine.{future_ids}

pub has_text-evidence_ids :
    {D : Type 0} (r : EvidenceRef D) (rs : List (EvidenceRef D))
    → Elem r rs
    → has_text r.evidence_id (evidence_ids rs) ≡ true
has_text-evidence_ids r [] h = elim h [ ]
has_text-evidence_ids r (x ∷ rs) Elem.here = rw (same_text_refl r.evidence_id) refl
has_text-evidence_ids r (x ∷ rs) (Elem.there h) = ground (arith, has_text-evidence_ids r rs h)

-- A reference whose identifier is not among the future ones was retrieved by `now`.
pub has_text-future_ids :
    {D : Type 0} (r : EvidenceRef D) (rs : List (EvidenceRef D)) (now : Datetime)
    → Elem r rs
    → has_text r.evidence_id (future_ids rs now) ≡ false
    → r.retrieved_at.instant ≤ now.instant
has_text-future_ids r rs now member apart =
    elim (Bool-cases (ltb now.instant r.retrieved_at.instant)) [
      | inl later ↦ cc (
        has_text-evidence_ids r _
            (keep-Elem (λ r. ltb now.instant r.retrieved_at.instant) r rs member later),
        apart,
      )
      | inr seen ↦ ground arith
    ]
