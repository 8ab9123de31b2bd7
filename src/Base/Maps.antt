-- ===== src/Base/Maps.antt =====
-- Hash maps with text keys: association lists with one entry for each key. The program never relies
-- on the iteration order of a map, and neither do the theorems.
use Prim.Native.Nat.{◌≤◌}
use mathlib.Core.Path.{◌≡◌, refl}
use mathlib.Core.Bool.{Bool, true, false}
use mathlib.Core.List.{List, [], ◌∷◌}
use mathlib.Core.Option.{Option, none, some}
use native.Mathlib.Omega.{arith}
use workflowy_mcp.Base.Tests.{if◌then◌else◌}
use workflowy_mcp.Base.Lists.{length}
use workflowy_mcp.Base.Bytes.{Text, text_eq, text_eq_iff, text_eq_refl}

abbrev pub Dict {ℓ} : Type ℓ → Type ℓ
Dict V = List (Text × V)

module _ {ℓ} {V : Type ℓ} where
  -- `get`
  unfoldable pub lookup : Text → Dict V → Option V
  lookup k [] = none
  lookup k ((j, v) ∷ m) = if text_eq j k then some v else lookup k m

  -- `remove`
  unfoldable pub erase : Text → Dict V → Dict V
  erase k [] = []
  erase k ((j, v) ∷ m) = let rest = erase k m in if text_eq j k then rest else (j, v) ∷ rest

  -- `insert`
  unfoldable pub insert : Text → V → Dict V → Dict V
  unfolding erase
  insert k v m = (k, v) ∷ erase k m

  -- `retain`
  unfoldable pub retain : (Text → V → Bool) → Dict V → Dict V
  retain p [] = []
  retain p ((j, v) ∷ m) = let rest = retain p m in if p j v then (j, v) ∷ rest else rest

  unfoldable pub contains_key : Text → Dict V → Bool
  contains_key k m = elim (lookup k m) [ none ↦ false | some _ ↦ true ]

  abbrev pub Distinct : Dict V → Type ℓ
  Distinct [] = Unit
  Distinct ((j, v) ∷ m) = (lookup j m ≡ none) × Distinct m

  pub lookup-erase :
      (k j : Text) (m : Dict V) → lookup j (erase k m) ≡ (if text_eq k j then none else lookup j m)
  unfolding lookup erase
  lookup-erase k j [] = ground arith
  lookup-erase k j ((i, v) ∷ m) =
      ground (arith, lookup-erase k j m, text_eq_iff i k, text_eq_iff i j, text_eq_iff k j)

  pub lookup-insert :
      (k j : Text) (v : V) (m : Dict V)
      → lookup j (insert k v m) ≡ (if text_eq k j then some v else lookup j m)
  unfolding lookup insert
  lookup-insert k j v m = ground (arith, lookup-erase k j m)

  pub Distinct-erase : (k : Text) (m : Dict V) → Distinct m → Distinct (erase k m)
  unfolding erase
  Distinct-erase k [] h = tt
  Distinct-erase k ((i, v) ∷ m) h =
      ground (arith, Distinct-erase k m h.1, lookup-erase k i m, text_eq_iff i k)

  pub Distinct-insert : (k : Text) (v : V) (m : Dict V) → Distinct m → Distinct (insert k v m)
  unfolding insert
  Distinct-insert k v m h =
      (ground (arith, lookup-erase k k m, text_eq_refl k), Distinct-erase k m h)

  lookup-retain_absent :
      (p : Text → V → Bool) (j : Text) (m : Dict V)
      → lookup j m ≡ none
      → lookup j (retain p m) ≡ none
  unfolding lookup retain
  lookup-retain_absent p j [] h = refl
  lookup-retain_absent p j ((i, v) ∷ m) h = ground (arith, lookup-retain_absent p j m)

  unfoldable pub keep_if : (Text → V → Bool) → Text → Option V → Option V
  keep_if p j none = none
  keep_if p j (some v) = if p j v then some v else none

  -- `retain` keeps an entry exactly when the predicate holds of it.
  pub lookup-retain :
      (p : Text → V → Bool) (j : Text) (m : Dict V)
      → Distinct m
      → lookup j (retain p m) ≡ keep_if p j (lookup j m)
  unfolding lookup retain keep_if
  lookup-retain p j [] h = refl
  lookup-retain p j ((i, v) ∷ m) h =
      ground (arith, lookup-retain p j m h.1, lookup-retain_absent p j m, text_eq_iff i j)

  pub Distinct-retain : (p : Text → V → Bool) (m : Dict V) → Distinct m → Distinct (retain p m)
  unfolding retain
  Distinct-retain p [] h = tt
  Distinct-retain p ((i, v) ∷ m) h =
      ground (arith, Distinct-retain p m h.1, lookup-retain_absent p i m h.0)

  pub length-erase-le : (k : Text) (m : Dict V) → length (erase k m) ≤ length m
  unfolding erase
  length-erase-le k [] = omega arith
  length-erase-le k ((i, v) ∷ m) = ground (arith, length-erase-le k m)

  pub length-retain-le : (p : Text → V → Bool) (m : Dict V) → length (retain p m) ≤ length m
  unfolding retain
  length-retain-le p [] = omega arith
  length-retain-le p ((i, v) ∷ m) = ground (arith, length-retain-le p m)
