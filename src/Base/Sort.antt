-- ===== src/Base/Sort.antt =====
-- The stable sort: an element goes before the first that it does not come after.
use Prim.Native.Nat.{suc}
use mathlib.Core.Path.{◌≡◌}
use mathlib.Core.Logic.{inl, inr}
use mathlib.Core.Bool.{Bool}
use mathlib.Core.List.{List, [], ◌∷◌, Memᴰ}
use mathlib.Core.List.Memᴰ
use native.Mathlib.Omega.{arith}
use workflowy_mcp.Base.Tests.{if◌then◌else◌, Bool-cases}
use workflowy_mcp.Base.Lists.{length}

module _ {ℓ} {A : Type ℓ} (le : A → A → Bool) where
  unfoldable pub insert_sorted : A → List A → List A
  insert_sorted x [] = x ∷ []
  insert_sorted x (y ∷ ys) =
      let later = insert_sorted x ys in if le x y then x ∷ y ∷ ys else y ∷ later

  unfoldable pub sort_by : List A → List A
  unfolding insert_sorted
  sort_by [] = []
  sort_by (x ∷ xs) = insert_sorted x (sort_by xs)

  Memᴰ-insert_sorted : (a x : A) (ys : List A) → Memᴰ a (x ∷ ys) → Memᴰ a (insert_sorted x ys)
  unfolding insert_sorted
  Memᴰ-insert_sorted a x [] h = h
  Memᴰ-insert_sorted a x (y ∷ ys) h = elim (Bool-cases (le x y)) [
    | inl first ↦ rw first h
    | inr later ↦ rw later (elim (Memᴰ.cases_cons h) [
      | inl here ↦ Memᴰ.tail (Memᴰ-insert_sorted a x ys (Memᴰ.head here))
      | inr there ↦ elim (Memᴰ.cases_cons there) [
        | inl at_y ↦ Memᴰ.head at_y
        | inr rest ↦ Memᴰ.tail (Memᴰ-insert_sorted a x ys (Memᴰ.tail rest))
      ]
    ])
  ]

  pub Memᴰ-sort_by : (a : A) (xs : List A) → Memᴰ a xs → Memᴰ a (sort_by xs)
  unfolding sort_by
  Memᴰ-sort_by a [] h = h
  Memᴰ-sort_by a (x ∷ xs) h = Memᴰ-insert_sorted a x (sort_by xs) (elim (Memᴰ.cases_cons h) [
    | inl here ↦ Memᴰ.head here
    | inr there ↦ Memᴰ.tail (Memᴰ-sort_by a xs there)
  ])

  inserted-Memᴰ : (a x : A) (ys : List A) → Memᴰ a (insert_sorted x ys) → Memᴰ a (x ∷ ys)
  unfolding insert_sorted
  inserted-Memᴰ a x [] h = h
  inserted-Memᴰ a x (y ∷ ys) h = elim (Bool-cases (le x y)) [
    | inl first ↦ rw (first, insert_sorted) at h
    | inr later ↦ elim (Memᴰ.cases_cons (rw (later, insert_sorted) at h)) [
      | inl at_y ↦ Memᴰ.tail (Memᴰ.head at_y)
      | inr there ↦ elim (Memᴰ.cases_cons (inserted-Memᴰ a x ys there)) [
        | inl here ↦ Memᴰ.head here
        | inr rest ↦ Memᴰ.tail (Memᴰ.tail rest)
      ]
    ]
  ]

  pub sorted-Memᴰ : (a : A) (xs : List A) → Memᴰ a (sort_by xs) → Memᴰ a xs
  unfolding sort_by
  sorted-Memᴰ a [] h = h
  sorted-Memᴰ a (x ∷ xs) h = elim (Memᴰ.cases_cons (inserted-Memᴰ a x (sort_by xs) h)) [
    | inl here ↦ Memᴰ.head here
    | inr there ↦ Memᴰ.tail (sorted-Memᴰ a xs there)
  ]

  length-insert_sorted : (x : A) (ys : List A) → length (insert_sorted x ys) ≡ suc (length ys)
  unfolding insert_sorted
  length-insert_sorted x [] = omega arith
  length-insert_sorted x (y ∷ ys) = ground (arith, length-insert_sorted x ys)

  pub length-sort_by : (xs : List A) → length (sort_by xs) ≡ length xs
  unfolding sort_by
  length-sort_by [] = omega arith
  length-sort_by (x ∷ xs) = omega (arith, length-insert_sorted x (sort_by xs), length-sort_by xs)
