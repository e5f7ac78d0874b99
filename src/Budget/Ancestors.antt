-- ===== src/Budget/Ancestors.antt =====
-- The depth that `validate_tasks` computes: it counts every ancestor of a task.
use agentic_equity_research.Prelude.{
  ℕ, zero, suc, ◌+◌, ◌≤◌, ◌<◌, ◌≡◌, refl, ap, sym, ◌∙◌, true, false, not, ◌⊎◌, inl, inr, Option,
  none, some, List, [], ◌∷◌, ◌++◌, ◌==◌, ==_iff, ==_refl, length, keep, All, arith, Bool-cases,
}
use mathlib.Core.Path.{subst}
use mathlib.Core.List.{reverse, reverse-cons}
use agentic_equity_research.Task.{ResearchTask, contains}
use agentic_equity_research.Graph.{find_task}
use agentic_equity_research.Budget.{depth_loop, depth_of, push_parents}

-- The identifiers that the task `t` depends on, directly or through the tasks of `m`.
pub data Ancestor (m : List ResearchTask) (t : ResearchTask) : ℕ → Type 0 where
  parent : {dep : ℕ} → contains dep t.dependencies ≡ true → Ancestor m t dep
  above :
      {dep key : ℕ} {p : ResearchTask}
      → Ancestor m t dep
      → find_task dep m ≡ some p
      → contains key p.dependencies ≡ true
      → Ancestor m t key

-- No identifier is listed twice.
abbrev pub NoRepeats : List ℕ → Type 0
NoRepeats [] = Unit
NoRepeats (x ∷ xs) = (contains x xs ≡ false) × NoRepeats xs

contains-append :
    (k : ℕ) (xs ys : List ℕ)
    → (contains k xs ≡ true) ⊎ (contains k ys ≡ true)
    → contains k (xs ++ ys) ≡ true
contains-append k [] ys (inl h) = cc
contains-append k [] ys (inr h) = h
contains-append k (x ∷ xs) ys h = ground (arith, contains-append k xs ys)

-- Whatever the stack leads to.
abbrev IsClosed : List ResearchTask → List ℕ → List ℕ → Type 0
IsClosed m seen stack =
    (dep key : ℕ) (p : ResearchTask)
    → contains dep seen ≡ true
    → find_task dep m ≡ some p
    → contains key p.dependencies ≡ true
    → (contains key seen ≡ true) ⊎ (contains key stack ≡ true)

-- The identifiers that the loop has met when it ends.
record Met (m : List ResearchTask) (stack seen : List ℕ) (depth n : ℕ) : Type 0 where
  all : List ℕ
  sizes : n + length seen ≡ depth + length all
  seen_met : (k : ℕ) → contains k seen ≡ true → contains k all ≡ true
  stack_met : (k : ℕ) → contains k stack ≡ true → contains k all ≡ true
  closed :
      (dep key : ℕ) (p : ResearchTask)
      → contains dep all ≡ true
      → find_task dep m ≡ some p
      → contains key p.dependencies ≡ true
      → contains key all ≡ true

contains-reverse : (k : ℕ) (xs : List ℕ) → contains k xs ≡ true → contains k (reverse xs) ≡ true
contains-reverse k [] h = cc
contains-reverse k (x ∷ xs) h = rw (reverse-cons x xs) (
    contains-append k (reverse xs) (x ∷ []) (elim (Bool-cases (x == k)) [
      | inl e ↦ inr (ground arith)
      | inr e ↦ inl (contains-reverse k xs (ground arith))
    ]))

contains-push_parents :
    (k : ℕ) (o : Option ResearchTask) (stack : List ℕ)
    → contains k stack ≡ true
    → contains k (push_parents o stack) ≡ true
contains-push_parents k none stack h = h
contains-push_parents k (some p) stack h = contains-append k (reverse p.dependencies) stack (inr h)

contains-cons :
    (k x : ℕ) (xs : List ℕ) → contains k (x ∷ xs) ≡ true → (x ≡ k) ⊎ (contains k xs ≡ true)
contains-cons k x xs h = elim (Bool-cases (x == k)) [
  | inl e ↦ inl ((==_iff x k).0 e)
  | inr e ↦ inr (ground arith)
]

contains-head : (k x : ℕ) (xs : List ℕ) → x ≡ k → contains k (x ∷ xs) ≡ true
contains-head k x xs e = rw e (ground (arith, ==_refl k))

contains-tail : (k x : ℕ) (xs : List ℕ) → contains k xs ≡ true → contains k (x ∷ xs) ≡ true
contains-tail k x xs h = ground arith

module _ (m : List ResearchTask) where
  -- An identifier that was met before is left out.
  IsClosed-skip :
      (dep : ℕ) (seen stack : List ℕ)
      → contains dep seen ≡ true
      → IsClosed m seen (dep ∷ stack)
      → IsClosed m seen stack
  IsClosed-skip dep seen stack e closed d key p d_in found k_in =
      elim (closed d key p d_in found k_in) [
        | inl h ↦ inl h
        | inr h ↦ elim (contains-cons key dep stack h) [
          | inl q ↦ inl (subst (λ x. contains x seen ≡ true) q e)
          | inr h' ↦ inr h'
        ]
      ]

  -- An identifier that is new is met, and its dependencies come on the stack.
  IsClosed-push :
      (dep : ℕ) (seen stack : List ℕ)
      → IsClosed m seen (dep ∷ stack)
      → IsClosed m (dep ∷ seen) (push_parents (find_task dep m) stack)
  IsClosed-push dep seen stack closed d key p d_in found k_in =
      elim (contains-cons d dep seen d_in) [
        | inl q ↦
            let here : find_task dep m ≡ some p = ap (λ x. find_task x m) q ∙ found in
            inr (
              rw here (
                contains-append key (reverse p.dependencies) stack
                  (inl (contains-reverse key p.dependencies k_in))))
        | inr d_seen ↦ elim (closed d key p d_seen found k_in) [
          | inl h ↦ inl (contains-tail key dep seen h)
          | inr h ↦ elim (contains-cons key dep stack h) [
            | inl q ↦ inl (contains-head key dep seen q)
            | inr h' ↦ inr (contains-push_parents key (find_task dep m) stack h')
          ]
        ]
      ]

  depth_loop-Met :
      (fuel : ℕ) (stack seen : List ℕ) (depth : ℕ) {n : ℕ}
      → IsClosed m seen stack
      → depth_loop fuel m stack seen depth ≡ some n
      → Met m stack seen depth n
  unfolding depth_loop
  depth_loop-Met fuel [] seen depth closed h = record {
    all = seen;
    sizes = ground arith;
    seen_met = λ k e. e;
    stack_met = λ k e. cc;
    closed = λ dep key p i found k. (elim (closed dep key p i found k) [ inl e ↦ e | inr e ↦ cc ]);
  }
  depth_loop-Met zero (dep ∷ stack) seen depth closed h = cc
  depth_loop-Met (suc fuel) (dep ∷ stack) seen depth {n} closed h =
      elim (Bool-cases (contains dep seen)) [
        | inl e ↦
            let met =
              depth_loop-Met fuel stack seen depth {n = n} (IsClosed-skip dep seen stack e closed)
                (ground arith) in
            record {
              all = met.all;
              sizes = met.sizes;
              seen_met = met.seen_met;
              stack_met = λ k i. (elim (contains-cons k dep stack i) [
                | inl q ↦ met.seen_met k (subst (λ x. contains x seen ≡ true) q e)
                | inr j ↦ met.stack_met k j
              ]);
              closed = met.closed;
            }
        | inr e ↦
            let met =
              depth_loop-Met fuel (push_parents (find_task dep m) stack) (dep ∷ seen) (depth + 1)
                {n = n} (IsClosed-push dep seen stack closed) (ground arith) in
            record {
              all = met.all;
              sizes = omega (arith, met.sizes);
              seen_met = λ k i. met.seen_met k (contains-tail k dep seen i);
              stack_met = λ k i. (elim (contains-cons k dep stack i) [
                | inl q ↦ met.seen_met k (contains-head k dep seen q)
                | inr j ↦ met.stack_met k (contains-push_parents k (find_task dep m) stack j)
              ]);
              closed = met.closed;
            }
      ]

-- Taking one identifier out of a list.
abbrev without : ℕ → List ℕ → List ℕ
without x xs = keep (λ y. not (y == x)) xs

without-length : (x : ℕ) (xs : List ℕ) → contains x xs ≡ true → length (without x xs) < length xs
without-length x [] h = cc
without-length x (y ∷ ys) h = ground (arith, without-length x ys, keep-length ys)
  where
    keep-length : (zs : List ℕ) → length (without x zs) ≤ length zs
    keep-length [] = omega arith
    keep-length (z ∷ zs) = ground (arith, keep-length zs)

contains-without :
    (k x : ℕ) (xs : List ℕ)
    → (x == k) ≡ false
    → contains k xs ≡ true
    → contains k (without x xs) ≡ true
contains-without k x [] ne h = cc
contains-without k x (y ∷ ys) ne h = ground (arith, contains-without k x ys ne, same)
  where
    same : (y == k) ≡ true → (y == x) ≡ false
    same e = elim (Bool-cases (y == x)) [ inl q ↦ cc (ne, (==_iff y x).0 q) | inr q ↦ q ]

-- A list without repeats is no longer than one that holds all of it.
NoRepeats-length :
    (xs all : List ℕ)
    → NoRepeats xs
    → ((k : ℕ) → contains k xs ≡ true → contains k all ≡ true)
    → length xs ≤ length all
NoRepeats-length [] all h i = omega arith
NoRepeats-length (x ∷ xs) all h i =
    let inside : contains x all ≡ true = i x (contains-head x x xs refl) in
    omega (
      arith,
      without-length x all inside,
      NoRepeats-length xs (without x all) h.1
          (λ k e. contains-without k x all (apart k e) (i k (contains-tail k x xs e))),
    )
  where
    apart : (k : ℕ) → contains k xs ≡ true → (x == k) ≡ false
    apart k e = elim (Bool-cases (x == k)) [
      | inl q ↦ cc (h.0, subst (λ y. contains y xs ≡ true) (sym ((==_iff x k).0 q)) e)
      | inr q ↦ q
    ]

-- The depth is above the number of any ancestors of the task.
pub depth_of-Ancestor :
    (m : List ResearchTask) (t : ResearchTask) {n : ℕ}
    → depth_of m t ≡ some n
    → (keys : List ℕ) → NoRepeats keys
    → All (Ancestor m t) keys
    → length keys < n
unfolding depth_of
depth_of-Ancestor m t {n} h keys distinct ancestors =
    let met =
      depth_loop-Met m _ (reverse t.dependencies) [] 1 {n = n} (λ dep key p i found k. cc) h in
    omega (
      arith,
      met.sizes,
      NoRepeats-length keys met.all distinct (λ k i. inside met k (member keys k ancestors i)),
    )
  where
    inside :
        (met : Met m (reverse t.dependencies) [] 1 n) (k : ℕ)
        → Ancestor m t k
        → contains k met.all ≡ true
    inside met k (Ancestor.parent i) = met.stack_met k (contains-reverse k t.dependencies i)
    inside met k (Ancestor.above {dep} {key} {p} a found i) =
        met.closed dep k p (inside met dep a) found i

    member : (xs : List ℕ) (k : ℕ) → All (Ancestor m t) xs → contains k xs ≡ true → Ancestor m t k
    member [] k anc i = cc
    member (x ∷ xs) k anc i = elim (contains-cons k x xs i) [
      | inl q ↦ subst (Ancestor m t) q anc.0
      | inr j ↦ member xs k anc.1 j
    ]
