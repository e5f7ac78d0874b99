-- ===== src/Text/Characters.antt =====
-- What holds of each character of a text holds of each of `" ".join(s.split())`, and the texts that
-- `strip` leaves as they are.
use agentic_equity_research.Prelude.{
  ℕ, ◌≡◌, refl, ap, ◌∙◌, Bool, false, inl, inr, List, [], ◌∷◌, ◌++◌, any, arith, Bool-cases,
}
use agentic_equity_research.Text.{
  Text, is_space, lstrip, rstrip, strip, flush, split_from, join_onto, join, keep_before,
}

module _ (p : ℕ → Bool) (space : p 32 ≡ false) where
  any-append : (s t : Text) → any p s ≡ false → any p t ≡ false → any p (s ++ t) ≡ false
  any-append [] t h k = k
  any-append (c ∷ s) t h k = ground (arith, any-append s t)

  any-join_onto :
      (w v : Text) (ws : List Text)
      → any p w ≡ false
      → any p (join_onto v ws) ≡ false
      → any p (join_onto w (v ∷ ws)) ≡ false
  any-join_onto w v ws h k = any-append w (32 ∷ join_onto v ws) h (ground (arith, space))

  any-join :
      (w : Text) (ws : List Text)
      → any p w ≡ false
      → any p (join ws) ≡ false
      → any p (join (w ∷ ws)) ≡ false
  any-join w [] h k = h
  any-join w (v ∷ ws) h k = any-join_onto w v ws h k

  any-flush :
      (w : Text) (ws : List Text)
      → any p w ≡ false
      → any p (join ws) ≡ false
      → any p (join (flush w ws)) ≡ false
  any-flush [] ws h k = k
  any-flush (c ∷ cs) ws h k = any-join (c ∷ cs) ws h k

  pub any-split_from :
      (w s : Text) → any p w ≡ false → any p s ≡ false → any p (join (split_from w s)) ≡ false
  unfolding split_from
  any-split_from w [] h k = any-flush w [] h refl
  any-split_from w (c ∷ s) h k = elim (Bool-cases (is_space c)) [
    | inl e ↦
        rw (e, any) (any-flush w (split_from [] s) h (any-split_from [] s refl (ground arith)))
    | inr e ↦
        rw (e, any)
          (any-split_from (w ++ c ∷ []) s (any-append w (c ∷ []) h (ground arith)) (ground arith))
  ]

-- A text with no space.
keep_before-solid : (c : ℕ) (s : Text) → is_space c ≡ false → keep_before c s ≡ c ∷ s
keep_before-solid c [] h = rw (h, keep_before) refl
keep_before-solid c (d ∷ s) h = refl

rstrip-solid : (s : Text) → any is_space s ≡ false → rstrip s ≡ s
unfolding rstrip
rstrip-solid [] h = refl
rstrip-solid (c ∷ s) h =
    ap (keep_before c) (rstrip-solid s (ground arith)) ∙ keep_before-solid c s (ground arith)

pub strip-solid : (s : Text) → any is_space s ≡ false → strip s ≡ s
unfolding strip lstrip
strip-solid [] h = refl
strip-solid (c ∷ s) h =
    let solid : is_space c ≡ false = ground arith in rw (solid, lstrip) (rstrip-solid (c ∷ s) h)
