-- ===== src/Prelude/Sorting.antt =====
-- Python's `sorted` with a key, as insertion sort: the sort is stable.
use Prim.Native.Nat.{suc}
use mathlib.Core.Path.{◌≡◌, refl, ap, ◌∙◌}
use mathlib.Core.Logic.{inl, inr}
use mathlib.Core.Bool.{Bool, true, false}
use mathlib.Core.List.{List, [], ◌∷◌}
use native.Mathlib.Omega.{arith}
use agentic_equity_research.Prelude.Tests.{Bool-cases}
use agentic_equity_research.Prelude.Lists.{length, count, All, All-map, Elem}

module _ {ℓ} {A : Type ℓ} (before : A → A → Bool) where
  -- `x` goes in front of the first element that it may precede.
  unfoldable pub insert_by : A → List A → List A
  insert_by x [] = x ∷ []
  insert_by x (y ∷ ys) = elim (before x y) [ true ↦ x ∷ y ∷ ys | false ↦ y ∷ insert_by x ys ]

  unfoldable pub sort_by : List A → List A
  unfolding insert_by
  sort_by [] = []
  sort_by (x ∷ xs) = insert_by x (sort_by xs)

  length-insert_by : (x : A) (xs : List A) → length (insert_by x xs) ≡ suc (length xs)
  unfolding insert_by
  length-insert_by x [] = refl
  length-insert_by x (y ∷ ys) = ground (arith, length-insert_by x ys)

  pub length-sort_by : (xs : List A) → length (sort_by xs) ≡ length xs
  unfolding sort_by
  length-sort_by [] = refl
  length-sort_by (x ∷ xs) = length-insert_by x (sort_by xs) ∙ ap suc (length-sort_by xs)

  count-insert_by :
      (p : A → Bool) (x : A) (xs : List A) → count p (insert_by x xs) ≡ count p (x ∷ xs)
  unfolding insert_by
  count-insert_by p x [] = refl
  count-insert_by p x (y ∷ ys) = ground (arith, count-insert_by p x ys)

  -- Sorting counts as before.
  pub count-sort_by : (p : A → Bool) (xs : List A) → count p (sort_by xs) ≡ count p xs
  unfolding sort_by
  count-sort_by p [] = refl
  count-sort_by p (x ∷ xs) = count-insert_by p x (sort_by xs) ∙ ground (arith, count-sort_by p xs)

  insert_by-All {κ} :
      (P : A → Type κ) (x : A) (xs : List A) → P x → All P xs → All P (insert_by x xs)
  unfolding insert_by
  insert_by-All P x [] h hs = (h, tt)
  insert_by-All P x (y ∷ ys) h hs = elim (Bool-cases (before x y)) [
    | inl e ↦ rw (e, insert_by) (h, hs)
    | inr e ↦ rw (e, insert_by) (hs.0, insert_by-All P x ys h hs.1)
  ]

  pub sort_by-All {κ} : (P : A → Type κ) (xs : List A) → All P xs → All P (sort_by xs)
  unfolding sort_by
  sort_by-All P [] hs = tt
  sort_by-All P (x ∷ xs) hs = insert_by-All P x (sort_by xs) hs.0 (sort_by-All P xs hs.1)

  insert_by-Elem_self : (x : A) (xs : List A) → Elem x (insert_by x xs)
  unfolding insert_by
  insert_by-Elem_self x [] = Elem.here
  insert_by-Elem_self x (y ∷ ys) = elim (Bool-cases (before x y)) [
    | inl e ↦ rw (e, insert_by) Elem.here
    | inr e ↦ rw (e, insert_by) (Elem.there (insert_by-Elem_self x ys))
  ]

  insert_by-Elem_of : (a x : A) (xs : List A) → Elem a xs → Elem a (insert_by x xs)
  unfolding insert_by
  insert_by-Elem_of a x [] m = elim m [ ]
  insert_by-Elem_of a x (y ∷ ys) m = elim (Bool-cases (before x y)) [
    | inl e ↦ rw (e, insert_by) (Elem.there m)
    | inr e ↦ rw (e, insert_by) (step m (insert_by-Elem_of a x ys))
  ]
    where
      step :
          {z : A} {zs : List A}
          → Elem a (z ∷ zs)
          → (Elem a zs → Elem a (insert_by x zs))
          → Elem a (z ∷ insert_by x zs)
      step Elem.here f = Elem.here
      step (Elem.there k) f = Elem.there (f k)

  -- Everything of the list is in the sorted list.
  pub sort_by-Elem_of : (a : A) (xs : List A) → Elem a xs → Elem a (sort_by xs)
  unfolding sort_by
  sort_by-Elem_of a [] m = elim m [ ]
  sort_by-Elem_of a (x ∷ xs) Elem.here = insert_by-Elem_self x (sort_by xs)
  sort_by-Elem_of a (x ∷ xs) (Elem.there m) =
      insert_by-Elem_of a x (sort_by xs) (sort_by-Elem_of a xs m)

pub All-Elem {ℓ κ} :
    {A : Type ℓ} (P : A → Type κ) (xs : List A) → ((a : A) → Elem a xs → P a) → All P xs
All-Elem P [] f = tt
All-Elem P (x ∷ xs) f = (f x Elem.here, All-Elem P xs (λ a m. f a (Elem.there m)))

pub Elem-All {ℓ κ} :
    {A : Type ℓ} (P : A → Type κ) {a : A} {xs : List A} → Elem a xs → All P xs → P a
Elem-All P Elem.here h = h.0
Elem-All P (Elem.there m) h = Elem-All P m h.1

-- What the sorted list holds was in the list.
pub sort_by-Elem {ℓ} :
    {A : Type ℓ} (before : A → A → Bool) {a : A} (xs : List A)
    → Elem a (sort_by before xs)
    → Elem a xs
sort_by-Elem before xs m =
    Elem-All (λ b. Elem b xs) m
      (sort_by-All before (λ b. Elem b xs) xs (All-Elem (λ b. Elem b xs) xs (λ b k. k)))

-- A total and transitive order puts the list in order.
abbrev pub IsOrdered {ℓ} : {A : Type ℓ} → (A → A → Bool) → List A → Type 0
IsOrdered before [] = Unit
IsOrdered before (x ∷ xs) = All (λ y. before x y ≡ true) xs × IsOrdered before xs

module _ {ℓ} {A : Type ℓ} (before : A → A → Bool)
    (total : (a b : A) → before a b ≡ false → before b a ≡ true)
    (trans : (a b c : A) → before a b ≡ true → before b c ≡ true → before a c ≡ true) where
  insert_by-IsOrdered :
      (x : A) (xs : List A) → IsOrdered before xs → IsOrdered before (insert_by before x xs)
  unfolding insert_by
  insert_by-IsOrdered x [] h = (tt, tt)
  insert_by-IsOrdered x (y ∷ ys) h = elim (Bool-cases (before x y)) [
    | inl e ↦ rw (e, insert_by) ((e, All-map _ _ ys (λ z q. trans x y z e q) h.0), h)
    | inr e ↦
        rw (e, insert_by)
          (
            insert_by-All before (λ z. before y z ≡ true) x ys (total x y e) h.0,
            insert_by-IsOrdered x ys h.1,
          )
  ]

  pub sort_by-IsOrdered : (xs : List A) → IsOrdered before (sort_by before xs)
  unfolding sort_by
  sort_by-IsOrdered [] = tt
  sort_by-IsOrdered (x ∷ xs) = insert_by-IsOrdered x (sort_by before xs) (sort_by-IsOrdered xs)
