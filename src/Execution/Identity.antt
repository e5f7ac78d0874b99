-- ===== src/Execution/Identity.antt =====
-- `_enforce_identity`: the evidence of a result, and the company of the plan.
use agentic_equity_research.Prelude.{
  ◌≡◌, refl, true, false, inl, inr, ◌⊎◌, some, List, [], ◌∷◌, ◌==◌, All, Bool-cases,
}
use agentic_equity_research.Text.{Text, text}
use agentic_equity_research.Task.{ResearchTask}
use agentic_equity_research.Outcome.{TaskResultStatus, TaskEvidenceRef, TaskExecutionResult}
use agentic_equity_research.Execution.{
  CompanyIdentity, security_ids, all_listings, is_foreign, failure, enforce_refs, enforce_identity,
}

-- The reference names the company, and no security or listing but the company's.
pub record IsOwned (company : CompanyIdentity) (ref : TaskEvidenceRef) : Type 0 where
  pub same_company : (ref.company_id == company.company_id) ≡ true
  pub own_security : is_foreign ref.security_id (security_ids company.securities) ≡ false
  pub own_listing : is_foreign ref.listing_id (all_listings company.securities) ≡ false

-- The result is a failure of the task for a mismatch of identities, which carries no evidence and
-- is not retried.
pub record IsMismatch (running : ResearchTask) (r : TaskExecutionResult) : Type 0 where
  pub same_task : r.task_id ≡ running.task_id
  pub has_failed : r.status ≡ TaskResultStatus.failed
  pub no_evidence : r.evidence_refs ≡ []
  pub not_retryable : r.retryable ≡ false
  pub code : r.error_code ≡ some (text "identity_mismatch")

enforce_refs_cases :
    (company : CompanyIdentity) (running : ResearchTask) (result : TaskExecutionResult)
    (refs : List TaskEvidenceRef)
    → ((enforce_refs company running result refs ≡ result) × All (IsOwned company) refs)
      ⊎ (IsMismatch running (enforce_refs company running result refs)
          × (All (IsOwned company) refs → ⊥))
unfolding enforce_refs
enforce_refs_cases company running result [] = inl (refl, tt)
enforce_refs_cases company running result (r ∷ rs) =
    elim (Bool-cases (r.company_id == company.company_id)) [
      | inr e ↦
          rw (e, enforce_refs)
            (inr (
              refused (text "evidence company_id contradicts plan CompanyId"),
              λ h. let q = h.0.same_company in cc,
            ))
      | inl e ↦ elim (Bool-cases (is_foreign r.security_id (security_ids company.securities))) [
        | inl f ↦
            rw (e, f, enforce_refs)
              (inr (
                refused (text "evidence security_id is not owned by plan CompanyId"),
                λ h. let q = h.0.own_security in cc,
              ))
        | inr f ↦ elim (Bool-cases (is_foreign r.listing_id (all_listings company.securities))) [
          | inl g ↦
              rw (e, f, g, enforce_refs)
                (inr (
                  refused (text "evidence listing_id is not owned by plan CompanyId"),
                  λ h. let q = h.0.own_listing in cc,
                ))
          | inr g ↦
              rw (e, f, g, enforce_refs)
                (owned_next e f g (enforce_refs_cases company running result rs))
        ]
      ]
    ]
  where
    refused :
        (message : Text)
        → IsMismatch running (failure running.task_id message (text "identity_mismatch"))
    refused message = record {
      same_task = refl;
      has_failed = refl;
      no_evidence = refl;
      not_retryable = refl;
      code = refl;
    }

    owned_next :
        {x : TaskExecutionResult}
        → (r.company_id == company.company_id) ≡ true
        → is_foreign r.security_id (security_ids company.securities) ≡ false
        → is_foreign r.listing_id (all_listings company.securities) ≡ false
        → ((x ≡ result) × All (IsOwned company) rs)
          ⊎ (IsMismatch running x × (All (IsOwned company) rs → ⊥))
        → ((x ≡ result) × All (IsOwned company) (r ∷ rs))
          ⊎ (IsMismatch running x × (All (IsOwned company) (r ∷ rs) → ⊥))
    owned_next e f g (inl (same, owned)) =
        inl (same, (record { same_company = e; own_security = f; own_listing = g }, owned))
    owned_next e f g (inr (mismatch, foreign)) = inr (mismatch, λ h. foreign h.1)

-- A result passes `_enforce_identity` unchanged if all its evidence belongs to the company of the
-- plan, with its securities and listings, and is replaced by a failure without evidence otherwise.
pub enforce_identity_exact :
    (company : CompanyIdentity) (running : ResearchTask) (result : TaskExecutionResult)
    → (All (IsOwned company) result.evidence_refs
        → enforce_identity company running result ≡ result)
      × ((All (IsOwned company) result.evidence_refs → ⊥)
          → IsMismatch running (enforce_identity company running result))
      × All (IsOwned company) (enforce_identity company running result).evidence_refs
unfolding enforce_identity
enforce_identity_exact company running result =
    elim (enforce_refs_cases company running result result.evidence_refs) [
      | inl (same, owned) ↦ (λ h. same, λ h. absurd (h owned), rw same owned)
      | inr (mismatch, foreign) ↦
          (λ h. absurd (foreign h), λ h. mismatch, rw mismatch.no_evidence tt)
    ]
