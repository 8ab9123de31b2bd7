-- ===== src/Workflows/Insert/Depths.antt =====
-- The stack of parents of insert_content_via_indented (workflows.rs).
use workflowy_mcp.Base.{
  ℕ, zero, suc, ◌≤◌, ◌<◌, ◌≡◌, refl, ap, Option, some, List, [], ◌∷◌, ◌++◌, Text, length, take,
  get_elem?, ltb, arith, Bool-cases, inl, inr, ltb→lt,
}
use workflowy_mcp.Workflows.Insert.{set_elem, descend}

module _ {A : Type 0} where
  take-set_elem :
      (n : ℕ) (x : A) (xs : List A)
      → n < length xs
      → take (suc n) (set_elem n x xs) ≡ take n xs ++ x ∷ []
  unfolding set_elem
  take-set_elem n x [] h = ground arith
  take-set_elem zero x (y ∷ ys) h = refl
  take-set_elem (suc n) x (y ∷ ys) h = ap (λ r. y ∷ r) (take-set_elem n x ys (omega arith))

  take_all : (n : ℕ) (xs : List A) → length xs ≤ n → take n xs ≡ xs
  take_all zero [] h = refl
  take_all zero (x ∷ xs) h = ground arith
  take_all (suc n) [] h = refl
  take_all (suc n) (x ∷ xs) h = ap (λ r. x ∷ r) (take_all n xs (omega arith))

  pub get-take :
      (n k : ℕ) (x : A) (xs : List A)
      → k < n
      → n ≤ length xs
      → get_elem? (take n xs ++ x ∷ []) k ≡ get_elem? xs k
  get-take zero k x xs h l = ground arith
  get-take (suc n) k x [] h l = ground arith
  get-take (suc n) zero x (y ∷ ys) h l = refl
  get-take (suc n) (suc k) x (y ∷ ys) h l = get-take n k x ys (omega arith) (omega arith)

  pub get-take_last :
      (n : ℕ) (x : A) (xs : List A) → n ≤ length xs → get_elem? (take n xs ++ x ∷ []) n ≡ some x
  get-take_last zero x xs l = refl
  get-take_last (suc n) x [] l = ground arith
  get-take_last (suc n) x (y ∷ ys) l = get-take_last n x ys (omega arith)

  pub length-take : (n : ℕ) (xs : List A) → n ≤ length xs → length (take n xs) ≡ n
  length-take zero xs h = omega arith
  length-take (suc n) [] h = omega arith
  length-take (suc n) (x ∷ xs) h = omega (arith, length-take n xs)

pub descend_lem :
    (indent : ℕ) (id : Text) (stack : List (Option Text))
    → indent < length stack
    → descend indent id stack ≡ take (suc indent) stack ++ some id ∷ []
unfolding descend
descend_lem indent id stack h = elim (Bool-cases (ltb (suc indent) (length stack))) [
  | inl deep ↦
      rw deep (take-set_elem (suc indent) (some id) stack (ltb→lt (suc indent) (length stack) deep))
  | inr top ↦ rw (top, take_all (suc indent) stack (ground (arith, top)))
]
