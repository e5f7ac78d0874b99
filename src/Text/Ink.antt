-- ===== src/Text/Ink.antt =====
-- Normalising a text keeps its characters that are not spaces.
use agentic_equity_research.Prelude.{
  ℕ, ◌+◌, ◌≤◌, ◌≡◌, refl, ◌∙◌, not, inl, inr, List, [], ◌∷◌, ◌++◌, arith, Bool-cases, count,
  count-append, count-le-length, length,
}
use agentic_equity_research.Text.{
  Text, is_space, lstrip, rstrip, strip, flush, split_from, join_onto, join, normalize, keep_before,
}

-- The number of characters that are not spaces.
abbrev pub ink : Text → ℕ
ink s = count (λ c. not (is_space c)) s

pub ink-append : (s t : Text) → ink (s ++ t) ≡ ink s + ink t
ink-append s t = count-append (λ c. not (is_space c)) s t

ink-lstrip : (s : Text) → ink (lstrip s) ≡ ink s
unfolding lstrip
ink-lstrip [] = refl
ink-lstrip (c ∷ s) = ground (arith, ink-lstrip s)

ink-keep_before : (c : ℕ) (s : Text) → ink (keep_before c s) ≡ ink (c ∷ s)
ink-keep_before c [] = ground arith
ink-keep_before c (d ∷ s) = refl

ink-rstrip : (s : Text) → ink (rstrip s) ≡ ink s
unfolding rstrip
ink-rstrip [] = refl
ink-rstrip (c ∷ s) = ink-keep_before c (rstrip s) ∙ ground (arith, ink-rstrip s)

ink-join_onto :
    (w v : Text) (ws : List Text) → ink (join_onto w (v ∷ ws)) ≡ ink w + ink (join_onto v ws)
unfolding is_space
ink-join_onto w v ws = ink-append w (32 ∷ join_onto v ws)

ink-join : (w : Text) (ws : List Text) → ink (join (w ∷ ws)) ≡ ink w + ink (join ws)
ink-join w [] = omega arith
ink-join w (v ∷ ws) = ink-join_onto w v ws

ink-flush : (w : Text) (ws : List Text) → ink (join (flush w ws)) ≡ ink w + ink (join ws)
ink-flush [] ws = omega arith
ink-flush (c ∷ cs) ws = ink-join (c ∷ cs) ws

ink-split_from : (w s : Text) → ink (join (split_from w s)) ≡ ink w + ink s
unfolding split_from
ink-split_from w [] = ink-flush w []
ink-split_from w (c ∷ s) = elim (Bool-cases (is_space c)) [
  | inl e ↦ rw (e, count) (ink-flush w (split_from [] s) ∙ ground (arith, ink-split_from [] s))
  | inr e ↦ rw (e, count) (ink-split_from (w ++ c ∷ []) s ∙ ground (arith, ink-append w (c ∷ [])))
]

ink-normalize : (s : Text) → ink (normalize s) ≡ ink s
unfolding normalize strip
ink-normalize s = omega (arith, ink-split_from [] (strip s), ink-rstrip (lstrip s), ink-lstrip s)

-- A normalised text is at least as long as the characters of the text that are not spaces are many.
pub length-normalize : (s : Text) → ink s ≤ length (normalize s)
length-normalize s =
    omega (arith, ink-normalize s, count-le-length (λ c. not (is_space c)) (normalize s))
