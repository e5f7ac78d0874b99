-- ===== src/Graph/Topological/Children.antt =====
-- The children that `topological_order` releases with a task: one for each time that it is listed.
use agentic_equity_research.Prelude.{
  ℕ, ◌+◌, ◌≤◌, ◌≡◌, refl, ◌∙◌, false, inl, inr, List, [], ◌∷◌, ◌++◌, ◌==◌, ==_refl, count-append,
  arith, All, Elem, if◌then◌else◌, Bool-cases,
}
use agentic_equity_research.Task.{ResearchTask, contains}
use agentic_equity_research.Graph.{Degree, task_ids}
use agentic_equity_research.Graph.Visits.{occurs, tasks_of, unvisited-cons}
use agentic_equity_research.Graph.Acyclic.{Elem-occurs}
use agentic_equity_research.Graph.Topological.{children, repeat_child}
use agentic_equity_research.Graph.Topological.Release.{named, Due}

pub named-task_ids : (k : ℕ) (ts : List ResearchTask) → named k ts ≡ occurs k (task_ids ts)
named-task_ids k [] = refl
named-task_ids k (t ∷ ts) = ground (arith, named-task_ids k ts)

All-append : {A : Type 0} (P : A → Type 0) (xs ys : List A) → All P xs → All P ys → All P (xs ++ ys)
All-append P [] ys h k = k
All-append P (x ∷ xs) ys h k = (h.0, All-append P xs ys h.1 k)

module _ (node : ℕ) where
  -- How often the tasks with the identifier `k` list `node`.
  abbrev pub listed : ℕ → List ResearchTask → ℕ
  listed k [] = 0
  listed k (t ∷ ts) = (if t.task_id == k then occurs node t.dependencies else 0) + listed k ts

  named-repeat_child :
      (k : ℕ) (t : ResearchTask) (deps : List ℕ)
      → named k (repeat_child node t deps) ≡ (if t.task_id == k then occurs node deps else 0)
  named-repeat_child k t [] = ground arith
  named-repeat_child k t (d ∷ deps) = ground (arith, named-repeat_child k t deps)

  pub named-children : (k : ℕ) (ts : List ResearchTask) → named k (children node ts) ≡ listed k ts
  unfolding children
  named-children k [] = refl
  named-children k (t ∷ ts) =
      count-append (λ u. u.task_id == k) (repeat_child node t t.dependencies) (children node ts)
      ∙ omega (arith, named-repeat_child k t t.dependencies, named-children k ts)

  listed_absent : (k : ℕ) (ts : List ResearchTask) → occurs k (task_ids ts) ≡ 0 → listed k ts ≡ 0
  listed_absent k [] h = refl
  listed_absent k (t ∷ ts) h = ground (arith, listed_absent k ts)

  pub listed_own :
      (t : ResearchTask) (ts : List ResearchTask)
      → Elem t ts
      → occurs t.task_id (task_ids ts) ≤ 1
      → listed t.task_id ts ≡ occurs node t.dependencies
  listed_own t [] m h = elim m [ ]
  listed_own t (u ∷ ts) Elem.here h = ground (arith, ==_refl t.task_id, listed_absent t.task_id ts)
  listed_own t (u ∷ ts) (Elem.there m) h = ground (arith, listed_own t ts m, Elem-occurs t ts m)

  repeat_child-All :
      (P : ResearchTask → Type 0) (t : ResearchTask) (deps : List ℕ)
      → P t
      → All P (repeat_child node t deps)
  repeat_child-All P t [] h = tt
  repeat_child-All P t (d ∷ deps) h = elim (Bool-cases (d == node)) [
    | inl e ↦ rw (e, repeat_child, All) (h, repeat_child-All P t deps h)
    | inr e ↦ rw (e, repeat_child) (repeat_child-All P t deps h)
  ]

  pub children-All :
      (P : ResearchTask → Type 0) (ts : List ResearchTask) → All P ts → All P (children node ts)
  unfolding children
  children-All P [] h = tt
  children-All P (t ∷ ts) h =
      All-append P (repeat_child node t t.dependencies) (children node ts)
        (repeat_child-All P t t.dependencies h.0) (children-All P ts h.1)

  pub All-Due :
      (visited : List ℕ) (cs : List ResearchTask) (ds : List Degree)
      → contains node visited ≡ false
      → All (λ t. named t.task_id cs ≡ occurs node t.dependencies) (tasks_of ds)
      → All (Due visited []) ds
      → All (Due (node ∷ visited) cs) ds
  All-Due visited cs [] apart h s = tt
  All-Due visited cs (d ∷ ds) apart h s = (
    omega (arith, s.0, h.0, unvisited-cons node visited d.task.dependencies apart),
    All-Due visited cs ds apart h.1 s.1,
  )
