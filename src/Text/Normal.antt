-- ===== src/Text/Normal.antt =====
-- The words of a text, and their join.
use agentic_equity_research.Prelude.{
  ℕ, ◌≡◌, ◌≢◌, refl, sym, ap, ◌∙◌, true, false, inl, inr, List, [], ◌∷◌, ◌++◌, arith, Bool-cases,
  All, All-append_one,
}
use mathlib.Core.List.{append-nil, append_assoc}
use agentic_equity_research.Text.{
  Text, is_space, lstrip, rstrip, strip, split_from, join, normalize, keep_before, flush, join_onto,
}

lstrip-keep_before : (c : ℕ) (s : Text) → is_space c ≡ true → lstrip (keep_before c s) ≡ lstrip s
unfolding lstrip
lstrip-keep_before c [] h = ground arith
lstrip-keep_before c (d ∷ ds) h = ground arith

lstrip-keep_before_ne :
    (c : ℕ) (s : Text) → is_space c ≡ false → lstrip (keep_before c s) ≡ keep_before c s
unfolding lstrip
lstrip-keep_before_ne c [] h = ground arith
lstrip-keep_before_ne c (d ∷ ds) h = ground arith

lstrip-rstrip : (s : Text) → lstrip (rstrip s) ≡ rstrip (lstrip s)
unfolding lstrip rstrip
lstrip-rstrip [] = refl
lstrip-rstrip (c ∷ cs) =
    ground (
      arith,
      lstrip-rstrip cs,
      lstrip-keep_before c (rstrip cs),
      lstrip-keep_before_ne c (rstrip cs),
    )

lstrip-lstrip : (s : Text) → lstrip (lstrip s) ≡ lstrip s
unfolding lstrip
lstrip-lstrip [] = refl
lstrip-lstrip (c ∷ cs) = ground (arith, lstrip-lstrip cs)

rstrip-keep_before : (c : ℕ) (s : Text) → rstrip s ≡ s → rstrip (keep_before c s) ≡ keep_before c s
unfolding rstrip
rstrip-keep_before c [] h = ground arith
rstrip-keep_before c (d ∷ ds) h = ap (keep_before c) h

rstrip-rstrip : (s : Text) → rstrip (rstrip s) ≡ rstrip s
unfolding rstrip
rstrip-rstrip [] = refl
rstrip-rstrip (c ∷ cs) = rstrip-keep_before c (rstrip cs) (rstrip-rstrip cs)

-- Stripping twice is stripping once.
pub strip-strip : (s : Text) → strip (strip s) ≡ strip s
unfolding strip
strip-strip s =
    ap rstrip (lstrip-rstrip (lstrip s))
    ∙ rstrip-rstrip (lstrip (lstrip s))
    ∙ ap rstrip (lstrip-lstrip s)

split_from-lstrip : (s : Text) → split_from [] (lstrip s) ≡ split_from [] s
unfolding lstrip split_from
split_from-lstrip [] = refl
split_from-lstrip (c ∷ cs) = ground (arith, split_from-lstrip cs)

split_from-keep_before :
    (c : ℕ) (s word : Text) → split_from word (keep_before c s) ≡ split_from word (c ∷ s)
unfolding split_from
split_from-keep_before c [] [] = ground arith
split_from-keep_before c [] (d ∷ word) = ground arith
split_from-keep_before c (d ∷ ds) word = refl

split_from-rstrip : (s word : Text) → split_from word (rstrip s) ≡ split_from word s
unfolding split_from rstrip
split_from-rstrip [] word = refl
split_from-rstrip (c ∷ cs) word = ground (
  arith,
  split_from-keep_before c (rstrip cs) word,
  split_from-rstrip cs [],
  split_from-rstrip cs (word ++ c ∷ []),
)

-- A word as `split` returns it: not empty, and with no space inside.
abbrev IsWord : Text → Type 0
IsWord w = (w ≢ []) × All (λ c. is_space c ≡ false) w

flush-IsWord :
    (w : Text) (ws : List Text)
    → All (λ c. is_space c ≡ false) w
    → All IsWord ws
    → All IsWord (flush w ws)
flush-IsWord [] ws h hs = hs
flush-IsWord (c ∷ cs) ws h hs = (((λ e. cc), h), hs)

split_from-IsWord :
    (s word : Text) → All (λ c. is_space c ≡ false) word → All IsWord (split_from word s)
unfolding split_from
split_from-IsWord [] word h = flush-IsWord word [] h tt
split_from-IsWord (c ∷ cs) word h = elim (Bool-cases (is_space c)) [
  | inl e ↦ rw (e, split_from) (flush-IsWord word (split_from [] cs) h (split_from-IsWord cs [] tt))
  | inr e ↦
      rw (e, split_from)
        (split_from-IsWord cs (word ++ c ∷ []) (All-append_one (λ d. is_space d ≡ false) word h e))
]

-- What has no space is read as one word.
split_from-append :
    (w word rest : Text)
    → All (λ c. is_space c ≡ false) w
    → split_from word (w ++ rest) ≡ split_from (word ++ w) rest
unfolding split_from
split_from-append [] word rest h = ap (λ v. split_from v rest) (sym (append-nil word))
split_from-append (c ∷ cs) word rest h =
    ground (arith, split_from-append cs (word ++ c ∷ []) rest h.1, append_assoc word (c ∷ []) cs)

flush-word : (w : Text) (ws : List Text) → w ≢ [] → flush w ws ≡ w ∷ ws
flush-word [] ws h = absurd (h refl)
flush-word (c ∷ cs) ws h = refl

space-IsSpace : is_space 32 ≡ true
unfolding is_space
space-IsSpace = refl

split_from-join_onto :
    (w : Text) (ws : List Text) → IsWord w → All IsWord ws → split_from [] (join_onto w ws) ≡ w ∷ ws
unfolding split_from
split_from-join_onto w [] h hs =
    ap (split_from []) (sym (append-nil w)) ∙ split_from-append w [] [] h.1 ∙ flush-word w [] h.0
split_from-join_onto w (v ∷ vs) h hs =
    split_from-append w [] (32 ∷ join_onto v vs) h.1
    ∙ ground (arith, space-IsSpace, flush-word w (v ∷ vs) h.0, split_from-join_onto v vs hs.0 hs.1)

split_from-join : (ws : List Text) → All IsWord ws → split_from [] (join ws) ≡ ws
unfolding split_from
split_from-join [] h = refl
split_from-join (w ∷ ws) h = split_from-join_onto w ws h.0 h.1

split_from-strip : (s : Text) → split_from [] (strip s) ≡ split_from [] s
unfolding strip
split_from-strip s = split_from-rstrip (lstrip s) [] ∙ split_from-lstrip s

-- Normalising a text that is normalised already changes nothing.
pub normalize-normalize : (s : Text) → normalize (normalize s) ≡ normalize s
unfolding normalize
normalize-normalize s =
    let ws = split_from [] (strip s) in
    ap join (split_from-strip (join ws) ∙ split_from-join ws (split_from-IsWord (strip s) [] tt))

-- The text that `" ".join(s.split())` makes is normalised.
pub normalize-join : (s : Text) → normalize (join (split_from [] s)) ≡ join (split_from [] s)
unfolding normalize
normalize-join s =
    let ws = split_from [] s in
    ap join (split_from-strip (join ws) ∙ split_from-join ws (split_from-IsWord s [] tt))
