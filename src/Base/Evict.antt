-- ===== src/Base/Evict.antt =====
-- Entries of a map that go by their age: `sort_by_key`, the removal of the oldest, and what is left.
use Prim.Native.Nat.{ℕ, zero, suc, ◌+◌, ◌≤◌}
use mathlib.Core.Path.{◌≡◌, refl, ap, ◌∙◌}
use mathlib.Core.Logic.{inl, inr}
use mathlib.Core.Bool.{true, false}
use mathlib.Core.List.{List, [], ◌∷◌}
use mathlib.Core.Option.{none, some}
use native.Mathlib.Omega.{arith}
use workflowy_mcp.Base.Tests.{leb, if◌then◌else◌, Bool-cases}
use workflowy_mcp.Base.Lists.{length, take, drop, All}
use workflowy_mcp.Base.Bytes.{Text, text_eq, text_eq_iff, text_eq_refl}
use workflowy_mcp.Base.Maps.{
  Dict, Distinct, lookup, erase, contains_key, lookup-erase, Distinct-erase,
}

module _ {ℓ} {V : Type ℓ} where
  unfoldable pub remove_keys : List (Text × V) → Dict V → Dict V
  unfolding erase
  remove_keys [] m = m
  remove_keys ((k, e) ∷ rest) m = remove_keys rest (erase k m)

  -- The keys of the list are different and the map has them all.
  abbrev pub Listed : List (Text × V) → Dict V → Type ℓ
  Listed [] m = Unit
  Listed ((k, e) ∷ rest) m = (contains_key k m ≡ true) × (lookup k rest ≡ none) × Listed rest m

  erase-absent : (k : Text) (m : Dict V) → lookup k m ≡ none → erase k m ≡ m
  unfolding lookup erase
  erase-absent k [] h = refl
  erase-absent k ((j, v) ∷ m) h = ground (arith, h, erase-absent k m)

  length-erase :
      (k : Text) (m : Dict V)
      → Distinct m
      → contains_key k m ≡ true
      → suc (length (erase k m)) ≡ length m
  unfolding lookup erase contains_key
  length-erase k [] d h = ground (arith, h)
  length-erase k ((j, v) ∷ m) d h =
      ground (arith, h, d.0, length-erase k m d.1, erase-absent k m, text_eq_iff j k)

  contains-erase :
      (k j : Text) (m : Dict V)
      → contains_key j (erase k m) ≡ (if text_eq k j then false else contains_key j m)
  unfolding contains_key
  contains-erase k j m = ground (arith, lookup-erase k j m)

  Listed-erase :
      (k : Text) (rest : List (Text × V)) (m : Dict V)
      → lookup k rest ≡ none
      → Listed rest m
      → Listed rest (erase k m)
  unfolding lookup
  Listed-erase k [] m absent h = tt
  Listed-erase k ((j, e) ∷ rest) m absent h = (
    ground (arith, absent, h.0, contains-erase k j m, text_eq_iff j k, text_eq_iff k j),
    h.1,
    Listed-erase k rest m (ground (arith, absent)) h.2,
  )

  length-remove_keys :
      (xs : List (Text × V)) (m : Dict V)
      → Distinct m
      → Listed xs m
      → length (remove_keys xs m) + length xs ≡ length m
  unfolding remove_keys
  length-remove_keys [] m d h = omega arith
  length-remove_keys ((k, e) ∷ rest) m d h = omega (
    arith,
    length-erase k m d h.0,
    length-remove_keys rest (erase k m) (Distinct-erase k m d) (Listed-erase k rest m h.1 h.2),
  )

  pub lookup-remove_keys :
      (j : Text) (xs : List (Text × V)) (m : Dict V)
      → lookup j (remove_keys xs m) ≡ (if contains_key j xs then none else lookup j m)
  unfolding remove_keys contains_key lookup
  lookup-remove_keys j [] m = refl
  lookup-remove_keys j ((k, e) ∷ rest) m =
      lookup-remove_keys j rest (erase k m) ∙ ground (arith, lookup-erase k j m, text_eq_iff k j)

  pub lookup-take :
      (k : Text) (n : ℕ) (xs : List (Text × V)) → lookup k xs ≡ none → lookup k (take n xs) ≡ none
  unfolding lookup
  lookup-take k zero xs h = refl
  lookup-take k (suc n) [] h = refl
  lookup-take k (suc n) ((j, e) ∷ xs) h = ground (arith, h, lookup-take k n xs)

  Listed-take : (n : ℕ) (xs : List (Text × V)) (m : Dict V) → Listed xs m → Listed (take n xs) m
  Listed-take zero xs m h = tt
  Listed-take (suc n) [] m h = tt
  Listed-take (suc n) ((k, e) ∷ xs) m h = (h.0, lookup-take k n xs h.1, Listed-take n xs m h.2)

  Listed-cons : (x : Text × V) (xs : List (Text × V)) (m : Dict V) → Listed xs m → Listed xs (x ∷ m)
  unfolding contains_key lookup
  Listed-cons x [] m h = tt
  Listed-cons x ((k, e) ∷ xs) m h = (ground (arith, h.0), h.1, Listed-cons x xs m h.2)

  Listed-self : (m : Dict V) → Distinct m → Listed m m
  unfolding contains_key lookup
  Listed-self [] d = tt
  Listed-self ((k, e) ∷ m) d =
      (ground (arith, text_eq_refl k), d.0, Listed-cons (k, e) m m (Listed-self m d.1))

  length-take : (n : ℕ) (xs : List (Text × V)) → n ≤ length xs → length (take n xs) ≡ n
  length-take zero xs h = omega arith
  length-take (suc n) [] h = omega arith
  length-take (suc n) (x ∷ xs) h = omega (arith, length-take n xs)

module _ {ℓ} {V : Type ℓ} (time : V → ℕ) where
  unfoldable pub insert_by_key : Text × V → List (Text × V) → List (Text × V)
  insert_by_key x [] = x ∷ []
  insert_by_key x (y ∷ ys) =
      let later = insert_by_key x ys in if leb (time x.1) (time y.1) then x ∷ y ∷ ys else y ∷ later

  -- a stable sort
  unfoldable pub sort_by_key : List (Text × V) → List (Text × V)
  unfolding insert_by_key
  sort_by_key [] = []
  sort_by_key (x ∷ xs) = insert_by_key x (sort_by_key xs)

  lookup-insert_by_key :
      (k : Text) (x : Text × V) (ys : List (Text × V))
      → lookup x.0 ys ≡ none
      → lookup k (insert_by_key x ys) ≡ lookup k (x ∷ ys)
  unfolding lookup insert_by_key
  lookup-insert_by_key k x [] h = refl
  lookup-insert_by_key k x (y ∷ ys) h = ground (
    arith,
    h,
    lookup-insert_by_key k x ys,
    text_eq_iff x.0 k,
    text_eq_iff y.0 k,
    text_eq_iff y.0 x.0,
  )

  pub lookup-sort_by_key :
      (k : Text) (m : Dict V) → Distinct m → lookup k (sort_by_key m) ≡ lookup k m
  unfolding lookup sort_by_key
  lookup-sort_by_key k [] d = refl
  lookup-sort_by_key k (x ∷ m) d =
      lookup-insert_by_key k x (sort_by_key m) (lookup-sort_by_key x.0 m d.1 ∙ d.0)
      ∙ ground (arith, lookup-sort_by_key k m d.1)

  Listed-insert_by_key :
      (x : Text × V) (ys : List (Text × V)) (m : Dict V)
      → contains_key x.0 m ≡ true
      → lookup x.0 ys ≡ none
      → Listed ys m
      → Listed (insert_by_key x ys) m
  unfolding insert_by_key lookup
  Listed-insert_by_key x [] m c n h = (c, refl, tt)
  Listed-insert_by_key x (y ∷ ys) m c n h = elim (Bool-cases (leb (time x.1) (time y.1))) [
    | inl first ↦ rw first (c, n, h)
    | inr later ↦ rw later (
      h.0,
      lookup-insert_by_key y.0 x ys (ground (arith, n))
          ∙ ground (arith, n, h.1, text_eq_iff x.0 y.0, text_eq_iff y.0 x.0),
      Listed-insert_by_key x ys m c (ground (arith, n)) h.2,
    )
  ]

  Listed-sort_by_key :
      (xs : Dict V) (m : Dict V) → Distinct xs → Listed xs m → Listed (sort_by_key xs) m
  unfolding sort_by_key
  Listed-sort_by_key [] m d h = tt
  Listed-sort_by_key ((k, e) ∷ xs) m d h =
      Listed-insert_by_key (k, e) (sort_by_key xs) m h.0 (lookup-sort_by_key k xs d.1 ∙ h.1)
        (Listed-sort_by_key xs m d.1 h.2)

  length-insert_by_key :
      (x : Text × V) (ys : List (Text × V)) → length (insert_by_key x ys) ≡ suc (length ys)
  unfolding insert_by_key
  length-insert_by_key x [] = omega arith
  length-insert_by_key x (y ∷ ys) = ground (arith, length-insert_by_key x ys)

  length-sort_by_key : (xs : List (Text × V)) → length (sort_by_key xs) ≡ length xs
  unfolding sort_by_key
  length-sort_by_key [] = omega arith
  length-sort_by_key (x ∷ xs) =
      omega (arith, length-insert_by_key x (sort_by_key xs), length-sort_by_key xs)

  -- The oldest leave as many behind as they should.
  pub length-remove_oldest :
      (n : ℕ) (m : Dict V)
      → Distinct m
      → n ≤ length m
      → length (remove_keys (take n (sort_by_key m)) m) + n ≡ length m
  length-remove_oldest n m d h =
      let oldest = take n (sort_by_key m) in
      omega (
        arith,
        length-take n (sort_by_key m) (omega (arith, length-sort_by_key m)),
        length-remove_keys oldest m d
            (Listed-take n (sort_by_key m) m (Listed-sort_by_key m m d (Listed-self m d))),
      )

  abbrev Sorted : List (Text × V) → Type ℓ
  Sorted [] = Unit
  Sorted (x ∷ xs) = All (λ y. time x.1 ≤ time y.1) xs × Sorted xs

  All-insert_by_key :
      (t : ℕ) (x : Text × V) (ys : List (Text × V))
      → t ≤ time x.1
      → All (λ y. t ≤ time y.1) ys
      → All (λ y. t ≤ time y.1) (insert_by_key x ys)
  unfolding insert_by_key
  All-insert_by_key t x [] h k = (h, tt)
  All-insert_by_key t x (y ∷ ys) h k = elim (Bool-cases (leb (time x.1) (time y.1))) [
    | inl first ↦ rw first (h, k)
    | inr later ↦ rw later (k.0, All-insert_by_key t x ys h k.1)
  ]

  All-later :
      (t u : ℕ) (ys : List (Text × V))
      → t ≤ u
      → All (λ y. u ≤ time y.1) ys
      → All (λ y. t ≤ time y.1) ys
  All-later t u [] h k = tt
  All-later t u (y ∷ ys) h k = (omega (arith, k.0), All-later t u ys h k.1)

  Sorted-insert_by_key :
      (x : Text × V) (ys : List (Text × V)) → Sorted ys → Sorted (insert_by_key x ys)
  unfolding insert_by_key
  Sorted-insert_by_key x [] h = (tt, tt)
  Sorted-insert_by_key x (y ∷ ys) h = elim (Bool-cases (leb (time x.1) (time y.1))) [
    | inl first ↦
        let before : time x.1 ≤ time y.1 = ground arith in
        rw first ((before, All-later (time x.1) (time y.1) ys before h.0), h)
    | inr later ↦
        let after : time y.1 ≤ time x.1 = ground arith in
        rw later (All-insert_by_key (time y.1) x ys after h.0, Sorted-insert_by_key x ys h.1)
  ]

  Sorted-sort_by_key : (xs : List (Text × V)) → Sorted (sort_by_key xs)
  unfolding sort_by_key
  Sorted-sort_by_key [] = tt
  Sorted-sort_by_key (x ∷ xs) = Sorted-insert_by_key x (sort_by_key xs) (Sorted-sort_by_key xs)

  found_later :
      (t n : ℕ) (j : Text) (f : V) (ys : List (Text × V))
      → All (λ y. t ≤ time y.1) ys
      → lookup j (drop n ys) ≡ some f
      → t ≤ time f
  unfolding lookup
  found_later t zero j f [] h found = cc found
  found_later t zero j f ((i, v) ∷ ys) h found = elim (Bool-cases (text_eq i j)) [
    | inl same ↦
        let equal : v ≡ f = ground (arith, found, same) in omega (arith, h.0, ap time equal)
    | inr other ↦ found_later t zero j f ys h.1 (rw (other, lookup) at found)
  ]
  found_later t (suc n) j f [] h found = cc found
  found_later t (suc n) j f (y ∷ ys) h found = found_later t n j f ys h.1 found

  taken_first :
      (n : ℕ) (k j : Text) (e f : V) (xs : List (Text × V))
      → Sorted xs
      → lookup k (take n xs) ≡ some e
      → lookup j (drop n xs) ≡ some f
      → time e ≤ time f
  unfolding lookup
  taken_first zero k j e f xs h taken left = cc taken
  taken_first (suc n) k j e f [] h taken left = cc taken
  taken_first (suc n) k j e f ((i, v) ∷ xs) h taken left = elim (Bool-cases (text_eq i k)) [
    | inl same ↦
        let equal : v ≡ e = ground (arith, taken, same) in
        omega (arith, found_later (time v) n j f xs h.0 left, ap time equal)
    | inr other ↦ taken_first n k j e f xs h.1 (rw (other, lookup) at taken) left
  ]

lookup-split {ℓ} :
    {V : Type ℓ} (n : ℕ) (k : Text) (xs : List (Text × V))
    → lookup k xs ≡ (elim (lookup k (take n xs)) [ none ↦ lookup k (drop n xs) | some e ↦ some e ])
unfolding lookup
lookup-split zero k xs = refl
lookup-split (suc n) k [] = refl
lookup-split (suc n) k ((i, v) ∷ xs) = ground (arith, lookup-split n k xs)

-- No entry that is removed is younger than one that is left.
pub remove_oldest_lem {ℓ} :
    {V : Type ℓ} (time : V → ℕ) (n : ℕ) (m : Dict V) (k j : Text) (e f : V)
    → Distinct m
    → lookup k m ≡ some e
    → lookup k (remove_keys (take n (sort_by_key time m)) m) ≡ none
    → lookup j (remove_keys (take n (sort_by_key time m)) m) ≡ some f
    → time e ≤ time f
unfolding contains_key
remove_oldest_lem {V = V} time n m k j e f d found gone left =
    let sorted = sort_by_key time m in
    let taken = take n sorted in
    let at_k = lookup-remove_keys k taken m in
    let at_j = lookup-remove_keys j taken m in
    let split_k = lookup-split n k sorted in
    let split_j = lookup-split n j sorted in
    let here : lookup k taken ≡ some e =
      ground (arith, at_k, gone, found, split_k, lookup-sort_by_key time k m d) in
    let there : lookup j (drop n sorted) ≡ some f =
      ground (arith, at_j, left, split_j, lookup-sort_by_key time j m d) in
    taken_first time n k j e f sorted (Sorted-sort_by_key time m) here there
