-- ===== src/Prelude/Membership.antt =====
-- Membership in the lists that `keep` makes, and what `any` finds.
use mathlib.Core.Path.{◌≡◌, refl, ap, ◌∙◌, subst}
use mathlib.Core.Logic.{◌⊎◌, inl, inr}
use mathlib.Core.Bool.{Bool, true, false}
use mathlib.Core.List.{List, [], ◌∷◌}
use native.Mathlib.Omega.{arith}
use agentic_equity_research.Prelude.Tests.{Bool-cases}
use agentic_equity_research.Prelude.Lists.{keep, any, Elem}

Elem-cons : {A : Type 0} {a x : A} {xs : List A} → Elem a (x ∷ xs) → (a ≡ x) ⊎ Elem a xs
Elem-cons Elem.here = inl refl
Elem-cons (Elem.there h) = inr h

module _ {A : Type 0} (p : A → Bool) where
  keep-head : (x : A) (xs : List A) → p x ≡ true → keep p (x ∷ xs) ≡ x ∷ keep p xs
  keep-head x xs e = rw (e, keep) refl

  keep-rest : (x : A) (xs : List A) → p x ≡ false → keep p (x ∷ xs) ≡ keep p xs
  keep-rest x xs e = rw (e, keep) refl

  pub Elem-keep : (a : A) (xs : List A) → Elem a (keep p xs) → Elem a xs × (p a ≡ true)
  Elem-keep a [] h = elim h [ ]
  Elem-keep a (x ∷ xs) h = elim (Bool-cases (p x)) [
    | inl e ↦ elim (Elem-cons (subst (λ l. Elem a l) (keep-head x xs e) h)) [
      | inl q ↦ (rw q Elem.here, ap p q ∙ e)
      | inr k ↦ let rest = Elem-keep a xs k in (Elem.there rest.0, rest.1)
    ]
    | inr e ↦
        let rest = Elem-keep a xs (subst (λ l. Elem a l) (keep-rest x xs e) h) in
        (Elem.there rest.0, rest.1)
  ]

  pub keep-Elem : (a : A) (xs : List A) → Elem a xs → p a ≡ true → Elem a (keep p xs)
  keep-Elem a [] h e = elim h [ ]
  keep-Elem a (x ∷ xs) Elem.here e = rw (e, keep) Elem.here
  keep-Elem a (x ∷ xs) (Elem.there h) e = elim (Bool-cases (p x)) [
    | inl q ↦ rw (q, keep) (Elem.there (keep-Elem a xs h e))
    | inr q ↦ rw (q, keep) (keep-Elem a xs h e)
  ]

  pub any-Elem : (xs : List A) → any p xs ≡ true → (a : A) × Elem a xs × (p a ≡ true)
  any-Elem [] h = cc
  any-Elem (x ∷ xs) h = elim (Bool-cases (p x)) [
    | inl e ↦ (x, Elem.here, e)
    | inr e ↦ let (a, member, q) = any-Elem xs (ground arith) in (a, Elem.there member, q)
  ]
