-- ===== src/Text/Same.antt =====
-- The equality test on texts.
use agentic_equity_research.Prelude.{◌≡◌, refl, true, [], ◌∷◌, ==_refl, arith}
use agentic_equity_research.Text.{Text, same_text}

pub same_text_refl : (t : Text) → same_text t t ≡ true
unfolding same_text
same_text_refl [] = refl
same_text_refl (c ∷ cs) = rw (==_refl c) (same_text_refl cs)

pub same_text-eq : (s t : Text) → same_text s t ≡ true → s ≡ t
unfolding same_text
same_text-eq [] [] h = refl
same_text-eq [] (d ∷ t) h = cc
same_text-eq (c ∷ s) [] h = cc
same_text-eq (c ∷ s) (d ∷ t) h = ground (arith, same_text-eq s t)
