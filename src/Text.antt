-- ===== src/Text.antt =====
-- The bounded text fields of the domain's value objects: `" ".join(s.strip().split())` and the
-- tests for emptiness, length and control characters that `__post_init__` makes
-- (for example src/financial_intelligence/domain/orchestration/tasks.py). A text is its code points.
pub mod Normal
pub mod Ink
pub mod Same
pub mod Characters
use agentic_equity_research.Prelude.{
  ℕ, zero, suc, ◌+◌, ◌-◌, ◌/◌, ◌%◌, Bool, true, false, not, ◌&&◌, ◌||◌, Option, none, some, List,
  [], ◌∷◌, ◌++◌, ltb, leb, ◌==◌, length, drop, any, Result, raise_if, value_error, if◌then◌else◌,
}
use Prim.Native.Char.{code}
use Prim.Native.String.{String}

abbrev pub Text : Type 0
Text = List ℕ

-- The code points of a literal.
unfoldable pub text : String → Text
text String.[] = []
text (String.◌∷◌ c s) = code c ∷ text s

-- Python's `str.isspace`.
unfoldable pub is_space : ℕ → Bool
is_space c =
    (leb 9 c && leb c 13)
    || (leb 28 c && leb c 32)
    || c == 0x85
    || c == 0xa0
    || c == 0x1680
    || (leb 0x2000 c && leb c 0x200a)
    || c == 0x2028
    || c == 0x2029
    || c == 0x202f
    || c == 0x205f
    || c == 0x3000

unfoldable pub lstrip : Text → Text
lstrip [] = []
lstrip (c ∷ cs) = elim (is_space c) [ true ↦ lstrip cs | false ↦ c ∷ cs ]

abbrev pub keep_before : ℕ → Text → Text
keep_before c [] = elim (is_space c) [ true ↦ [] | false ↦ c ∷ [] ]
keep_before c (d ∷ ds) = c ∷ d ∷ ds

unfoldable pub rstrip : Text → Text
rstrip [] = []
rstrip (c ∷ cs) = keep_before c (rstrip cs)

-- s.strip()
unfoldable pub strip : Text → Text
unfolding lstrip rstrip
strip s = rstrip (lstrip s)

abbrev pub flush : Text → List Text → List Text
flush [] ws = ws
flush (c ∷ cs) ws = (c ∷ cs) ∷ ws

-- s.split(): `word` is what has been read of the current word.
unfoldable pub split_from : Text → Text → List Text
split_from word [] = flush word []
split_from word (c ∷ cs) = elim (is_space c) [
  | true ↦ flush word (split_from [] cs)
  | false ↦ split_from (word ++ c ∷ []) cs
]

abbrev pub join_onto : Text → List Text → Text
join_onto w [] = w
join_onto w (v ∷ vs) = w ++ (32 ∷ join_onto v vs)

-- " ".join(words)
abbrev pub join : List Text → Text
join [] = []
join (w ∷ ws) = join_onto w ws

-- " ".join(s.strip().split())
unfoldable pub normalize : Text → Text
unfolding strip split_from is_space
normalize s = join (split_from [] (strip s))

-- not s
abbrev pub is_empty : Text → Bool
is_empty [] = true
is_empty (c ∷ cs) = false

-- any(ord(ch) < 32 for ch in s)
abbrev pub has_control : Text → Bool
has_control s = any (λ c. ltb c 32) s

-- len(s) > limit
abbrev pub exceeds : Text → ℕ → Bool
exceeds s limit = ltb limit (length s)

-- Equality of two texts.
unfoldable pub same_text : Text → Text → Bool
same_text [] [] = true
same_text (c ∷ cs) (d ∷ ds) = c == d && same_text cs ds
same_text _ _ = false

-- `x in xs`, for texts
abbrev pub has_text : Text → List Text → Bool
has_text w ws = any (same_text w) ws

-- tuple(dict.fromkeys(words)), and the elements of set(words)
unfoldable pub unique_texts : List Text → List Text → List Text
unfolding same_text
unique_texts seen [] = []
unique_texts seen (w ∷ ws) = elim (has_text w seen) [
  | true ↦ unique_texts seen ws
  | false ↦ w ∷ unique_texts (w ∷ seen) ws
]

-- s.split()
abbrev pub words : Text → List Text
words s = split_from [] s

-- Equality of two optional texts.
abbrev pub same_option : Option Text → Option Text → Bool
same_option none none = true
same_option (some a) (some b) = same_text a b
same_option _ _ = false

-- bool(x), for an optional text
abbrev pub is_given : Option Text → Bool
is_given none = false
is_given (some a) = not (is_empty a)

-- s.endswith(suffix)
abbrev pub ends_with : Text → Text → Bool
ends_with s suffix =
    leb (length suffix) (length s) && same_text (drop (length s - length suffix) s) suffix

-- str(n): the digits in base 10, with fuel n + 1
unfoldable pub digits : ℕ → ℕ → Text → Text
digits zero n rest = rest
digits (suc fuel) n rest =
    let more = digits fuel (n / 10) ((48 + n % 10) ∷ rest) in
    if ltb n 10 then (48 + n) ∷ rest else more

abbrev pub str_int : ℕ → Text
str_int n = digits (n + 1) n []

-- `if test: raise ValueError(message)`
abbrev pub fail_if : Bool → String → Result (Unit {0})
fail_if test message = raise_if test (value_error (text message))
