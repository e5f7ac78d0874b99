-- ===== src/Graph/Topological/Release.antt =====
-- What `topological_order` does with the children of a task.
use agentic_equity_research.Prelude.{
  ℕ, suc, ◌+◌, ◌≤◌, ◌≡◌, refl, sym, ◌∙◌, true, false, inl, inr, List, [], ◌∷◌, ◌++◌, ◌==◌, ==_iff,
  count, count-append, count-sort_by, sort_by, arith, All, All-append_one, if◌then◌else◌,
  Bool-cases, ◌&&◌, sort_by-All, length, length-append, length-sort_by,
}
use agentic_equity_research.Task.{ResearchTask}
use agentic_equity_research.Graph.{Degree, task_ids, precedes}
use agentic_equity_research.Graph.Kahn.{positive}
use agentic_equity_research.Graph.Visits.{occurs, tasks_of, zeros, unvisited}
use agentic_equity_research.Graph.Topological.{lower_child, release}

-- The tasks of a list with the identifier `k`.
abbrev pub named : ℕ → List ResearchTask → ℕ
named k ts = count (λ t. t.task_id == k) ts

pub lower_child-tasks_of : (c : ℕ) (ds : List Degree) → tasks_of (lower_child c ds).0 ≡ tasks_of ds
unfolding lower_child
lower_child-tasks_of c [] = refl
lower_child-tasks_of c (d ∷ ds) = ground (arith, lower_child-tasks_of c ds)

lower_child-zeros :
    (k c : ℕ) (ds : List Degree)
    → zeros k (lower_child c ds).0 ≡ zeros k ds + (if (lower_child c ds).1 && c == k then 1 else 0)
unfolding lower_child
lower_child-zeros k c [] = refl
lower_child-zeros k c (d ∷ ds) = ground (arith, lower_child-zeros k c ds, same)
  where
    same : (d.task.task_id == c) ≡ true → d.task.task_id ≡ c
    same e = (==_iff d.task.task_id c).0 e

-- The counter is what is left to visit, with what is still to be taken off.
abbrev pub Due : List ℕ → List ResearchTask → Degree → Type 0
Due visited cs d = d.count ≡ unvisited visited d.task.dependencies + named d.task.task_id cs

named-cons_ne :
    (k : ℕ) (c : ResearchTask) (cs : List ResearchTask)
    → (c.task_id == k) ≡ false
    → named k (c ∷ cs) ≡ named k cs
named-cons_ne k c cs h = rw (h, count) refl

others-Due :
    (visited : List ℕ) (c : ResearchTask) (cs : List ResearchTask) (ds : List Degree)
    → occurs c.task_id (task_ids (tasks_of ds)) ≡ 0
    → All (Due visited (c ∷ cs)) ds
    → All (Due visited cs) ds
others-Due visited c cs [] h s = tt
others-Due visited c cs (d ∷ ds) h s =
    (ground (arith, s.0, apart), others-Due visited c cs ds (ground arith) s.1)
  where
    apart : (c.task_id == d.task.task_id) ≡ true → (d.task.task_id == c.task_id) ≡ true
    apart e = (==_iff d.task.task_id c.task_id).1 (sym ((==_iff c.task_id d.task.task_id).0 e))

lower_child-Due :
    (visited : List ℕ) (c : ResearchTask) (cs : List ResearchTask) (ds : List Degree)
    → occurs c.task_id (task_ids (tasks_of ds)) ≤ 1
    → All (Due visited (c ∷ cs)) ds
    → All (Due visited cs) (lower_child c.task_id ds).0
unfolding lower_child
lower_child-Due visited c cs [] one s = tt
lower_child-Due visited c cs (d ∷ ds) one s = elim (Bool-cases (d.task.task_id == c.task_id)) [
  | inl e ↦
      let q : (c.task_id == d.task.task_id) ≡ true =
        (==_iff c.task_id d.task.task_id).1 (sym ((==_iff d.task.task_id c.task_id).0 e)) in
      let more : named d.task.task_id (c ∷ cs) ≡ suc (named d.task.task_id cs) =
        rw (q, count) refl in
      rw (e, All) (ground (arith, s.0, more), others-Due visited c cs ds (ground arith) s.1)
  | inr e ↦
      rw (e, All) (ground (arith, s.0, apart e), lower_child-Due visited c cs ds (ground arith) s.1)
]
  where
    apart : (d.task.task_id == c.task_id) ≡ false → (c.task_id == d.task.task_id) ≡ false
    apart h = elim (Bool-cases (c.task_id == d.task.task_id)) [
      | inl e ↦
          cc (h, (==_iff d.task.task_id c.task_id).1 (sym ((==_iff c.task_id d.task.task_id).0 e)))
      | inr e ↦ e
    ]

named-push :
    (k : ℕ) (c : ResearchTask) (ready : List ResearchTask)
    → named k (sort_by precedes (ready ++ c ∷ []))
      ≡ named k ready + (if c.task_id == k then 1 else 0)
named-push k c ready =
    count-sort_by precedes (λ t. t.task_id == k) (ready ++ c ∷ [])
    ∙ count-append (λ t. t.task_id == k) ready (c ∷ [])
    ∙ ground arith

-- The degrees and the queue after the children `cs` were released.
pub record Released (visited : List ℕ) (P : ResearchTask → Type 0) (ds : List Degree)
    (ready : List ResearchTask) (ds' : List Degree) (ready' : List ResearchTask) : Type 0 where
  pub same : tasks_of ds' ≡ tasks_of ds
  pub queued : (k : ℕ) → named k ready' + zeros k ds ≡ named k ready + zeros k ds'
  pub due : All (Due visited []) ds'
  pub members : All P ready'

pub release-Released :
    (visited : List ℕ) (P : ResearchTask → Type 0) (cs : List ResearchTask) (ds : List Degree)
    (ready : List ResearchTask)
    → ((k : ℕ) → occurs k (task_ids (tasks_of ds)) ≤ 1)
    → All (Due visited cs) ds
    → All P cs
    → All P ready
    → Released visited P ds ready (release cs ds ready).0 (release cs ds ready).1
unfolding release
release-Released visited P [] ds ready one s pc pr = record {
  same = refl;
  queued = λ k. refl;
  due = s;
  members = pr;
}
release-Released visited P (c ∷ cs) ds ready one s pc pr =
    let next = (lower_child c.task_id ds).0 in
    let same = lower_child-tasks_of c.task_id ds in
    let one' : (k : ℕ) → occurs k (task_ids (tasks_of next)) ≤ 1 = λ k. rw same (one k) in
    let due = lower_child-Due visited c cs ds (one c.task_id) s in
    elim (Bool-cases (lower_child c.task_id ds).1) [
      | inl e ↦
          let rest =
            release-Released visited P cs next (sort_by precedes (ready ++ c ∷ [])) one' due pc.1
              (sort_by-All precedes P (ready ++ c ∷ []) (All-append_one P ready pr pc.0)) in
          rw (e, release)
            (record {
              same = rest.same ∙ same;
              queued = λ k.
                  ground (
                    arith,
                    rest.queued k,
                    lower_child-zeros k c.task_id ds,
                    named-push k c ready,
                    e,
                  );
              due = rest.due;
              members = rest.members;
            })
      | inr e ↦
          let rest = release-Released visited P cs next ready one' due pc.1 pr in
          rw (e, release)
            (record {
              same = rest.same ∙ same;
              queued = λ k. ground (arith, rest.queued k, lower_child-zeros k c.task_id ds, e);
              due = rest.due;
              members = rest.members;
            })
    ]

lower_child_work :
    (c : ℕ) (ds : List Degree)
    → positive (lower_child c ds).0 + (if (lower_child c ds).1 then 1 else 0) ≡ positive ds
unfolding lower_child
lower_child_work c [] = refl
lower_child_work c (d ∷ ds) = ground (arith, lower_child_work c ds)

-- What a release takes off the counters it puts into the queue.
pub release_work :
    (cs : List ResearchTask) (ds : List Degree) (ready : List ResearchTask)
    → length (release cs ds ready).1 + positive (release cs ds ready).0 ≡ length ready + positive ds
unfolding release
release_work [] ds ready = refl
release_work (c ∷ cs) ds ready = ground (
  arith,
  lower_child_work c.task_id ds,
  release_work cs (lower_child c.task_id ds).0 ready,
  release_work cs (lower_child c.task_id ds).0 (sort_by precedes (ready ++ c ∷ [])),
  length-sort_by precedes (ready ++ c ∷ []),
  length-append ready (c ∷ []),
)
