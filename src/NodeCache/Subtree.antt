-- ===== src/NodeCache/Subtree.antt =====
-- What the invalidation of a subtree leaves in the node cache (utils/cache.rs).
use mathlib.Core.List.{Memᴰ}
use mathlib.Core.List.Memᴰ
use mathlib.Core.Path.{subst}
use workflowy_mcp.Base.{
  ℕ, zero, suc, ◌+◌, ◌≤◌, ◌<◌, total, descent, descent_step, ◌≡◌, ◌⊎◌, refl, sym, ap, ◌∙◌, true,
  ◌||◌, none, some, List, [], ◌∷◌, Text, text_eq, text_eq_iff, text_eq_refl, Dict, lookup, erase,
  lookup-erase, any, Bool-cases, Option-cases, inl, inr, arith,
}
use workflowy_mcp.NodeCache.{
  NodeCache, push_top, drop_below, invalidate_subtree, invalidate_listing_containing,
}

-- The children index leads from the first id down to the second.
pub data Leads (index : Dict (List Text)) : Text → Text → Type 0 where
  here : (id : Text) → Leads index id id
  down :
      (p c id : Text) (children : List Text)
      → lookup p index ≡ some children
      → any (text_eq c) children ≡ true
      → Leads index c id
      → Leads index p id

Leads-cases :
    (index : Dict (List Text)) (p id : Text)
    → Leads index p id
    → (p ≡ id)
      ⊎ ((c : Text) × (children : List Text) × (lookup p index ≡ some children)
          × (any (text_eq c) children ≡ true)
          × Leads index c id)
Leads-cases index _ _ (here id) = inl refl
Leads-cases index _ _ (down p c id children e there rest) = inr (c, children, e, there, rest)

-- Neither the node nor its listing is cached.
abbrev pub IsGone : Text → NodeCache → Type 0
IsGone id c = (lookup id c.cache ≡ none) × (lookup id c.listings ≡ none)

any-push_top :
    (id : Text) (xs ys : List Text)
    → any (text_eq id) (push_top xs ys) ≡ (any (text_eq id) xs || any (text_eq id) ys)
unfolding push_top
any-push_top id [] ys = refl
any-push_top id (x ∷ xs) ys = ground (arith, any-push_top id xs (x ∷ ys))

abbrev dropped : Text → NodeCache → NodeCache
dropped id c = record c { cache = erase id c.cache; listings = erase id c.listings }

dropped-IsGone : (j id : Text) (c : NodeCache) → IsGone id c → IsGone id (dropped j c)
dropped-IsGone j id c h = (
  ground (arith, h.0, lookup-erase j id c.cache),
  ground (arith, h.1, lookup-erase j id c.listings),
)

dropped-first : (id : Text) (c : NodeCache) → IsGone id (dropped id c)
dropped-first id c = (
  ground (arith, text_eq_refl id, lookup-erase id id c.cache),
  ground (arith, text_eq_refl id, lookup-erase id id c.listings),
)

drop_below-keeps :
    (fuel : ℕ) (stack : List Text) (c end : NodeCache) (id : Text)
    → drop_below fuel stack c ≡ some end
    → IsGone id c
    → IsGone id end
unfolding drop_below
drop_below-keeps fuel [] c end id h gone = let same : c ≡ end = cc h in subst (IsGone id) same gone
drop_below-keeps zero (j ∷ stack) c end id h gone = cc h
drop_below-keeps (suc fuel) (j ∷ stack) c end id h gone =
    elim (Option-cases (lookup j c.children_index)) [
      | inl e ↦
          drop_below-keeps fuel stack (dropped j c) end id (rw (e, drop_below) at h)
            (dropped-IsGone j id c gone)
      | inr (children, e) ↦
          drop_below-keeps fuel (push_top children stack) (dropped j c) end id
            (rw (e, drop_below) at h) (dropped-IsGone j id c gone)
    ]

drop_below-IsGone :
    (fuel : ℕ) (stack : List Text) (c end : NodeCache) (p id : Text)
    → drop_below fuel stack c ≡ some end
    → any (text_eq p) stack ≡ true
    → Leads c.children_index p id
    → IsGone id end
unfolding drop_below
drop_below-IsGone fuel [] c end p id h there leads = cc there
drop_below-IsGone zero (j ∷ stack) c end p id h there leads = cc h
drop_below-IsGone (suc fuel) (j ∷ stack) c end p id h there leads =
    elim (Bool-cases (text_eq p j)) [
      | inr other ↦
          let later : any (text_eq p) stack ≡ true = ground (arith, there, other) in
          elim (Option-cases (lookup j c.children_index)) [
            | inl e ↦
                drop_below-IsGone fuel stack (dropped j c) end p id (rw (e, drop_below) at h) later
                  leads
            | inr (children, e) ↦
                drop_below-IsGone fuel (push_top children stack) (dropped j c) end p id
                  (rw (e, drop_below) at h) (ground (arith, later, any-push_top p children stack))
                  leads
          ]
      | inl same ↦
          let equal : p ≡ j = ground (arith, same, text_eq_iff p j) in
          elim (Leads-cases c.children_index p id leads) [
            | inl itself ↦
                let gone : IsGone id (dropped j c) =
                  subst (λ x. IsGone x (dropped j c)) (sym equal ∙ itself) (dropped-first j c) in
                elim (Option-cases (lookup j c.children_index)) [
                  | inl e ↦
                      drop_below-keeps fuel stack (dropped j c) end id (rw (e, drop_below) at h)
                        gone
                  | inr (children, e) ↦
                      drop_below-keeps fuel (push_top children stack) (dropped j c) end id
                        (rw (e, drop_below) at h) gone
                ]
            | inr (d, children, e, among, rest) ↦
                let e' : lookup j c.children_index ≡ some children =
                  ap (λ x. lookup x c.children_index) (sym equal) ∙ e in
                drop_below-IsGone fuel (push_top children stack) (dropped j c) end d id
                  (rw (e', drop_below) at h) (ground (arith, among, any-push_top d children stack))
                  rest
          ]
    ]

listing-IsGone :
    (root id : Text) (c : NodeCache)
    → IsGone id c
    → IsGone id (invalidate_listing_containing root c)
unfolding invalidate_listing_containing
listing-IsGone root id c h = elim (Option-cases (lookup root c.member_of)) [
  | inl e ↦ rw (e, invalidate_listing_containing) h
  | inr (key, e) ↦
      rw (e, invalidate_listing_containing)
        (h.0, ground (arith, h.1, lookup-erase key id c.listings))
]

-- The children of an id in the index.
abbrev pub indexed : Dict (List Text) → Text → List Text
indexed index id = elim (lookup id index) [ none ↦ [] | some children ↦ children ]

total-push_top :
    (f : Text → ℕ) (xs ys : List Text) → total f (push_top xs ys) ≡ total f xs + total f ys
unfolding push_top
total-push_top f [] ys = omega arith
total-push_top f (x ∷ xs) ys = omega (arith, total-push_top f xs (x ∷ ys))

Memᴰ-push_top : (id : Text) (xs ys : List Text) → Memᴰ id (push_top xs ys) → Memᴰ id xs ⊎ Memᴰ id ys
unfolding push_top
Memᴰ-push_top id [] ys m = inr m
Memᴰ-push_top id (x ∷ xs) ys m = elim (Memᴰ-push_top id xs (x ∷ ys) m) [
  | inl earlier ↦ inl (Memᴰ.tail earlier)
  | inr later ↦ elim (Memᴰ.cases_cons later) [
    | inl itself ↦ inl (Memᴰ.head itself)
    | inr rest ↦ inr rest
  ]
]

module _ (height : Text → ℕ) where
  -- Every child is lower than its parent, as in a tree.
  abbrev pub IsLower : Dict (List Text) → Type 0
  IsLower index = (p c : Text) → Memᴰ c (indexed index p) → height c < height p

  drop_below_ends :
      (b fuel : ℕ) (stack : List Text) (c : NodeCache)
      → IsLower c.children_index
      → ((id : Text) → Memᴰ id stack → height id ≤ b)
      → total (descent (indexed c.children_index) b) stack ≤ fuel
      → (end : NodeCache) × (drop_below fuel stack c ≡ some end)
  unfolding drop_below
  drop_below_ends b fuel [] c lower low enough = (c, refl)
  drop_below_ends b zero (j ∷ stack) c lower low enough = absurd (
      omega
        (arith, descent_step (indexed c.children_index) height lower b j (low j (Memᴰ.head refl))))
  drop_below_ends b (suc fuel) (j ∷ stack) c lower low enough =
      let size = descent (indexed c.children_index) b in
      let step =
        descent_step (indexed c.children_index) height lower b j (low j (Memᴰ.head refl)) in
      elim (Option-cases (lookup j c.children_index)) [
        | inl e ↦
            rw (e, drop_below)
              (drop_below_ends b fuel stack (dropped j c) lower (λ id m. low id (Memᴰ.tail m))
                (omega (arith, enough, step)))
        | inr (children, e) ↦
            rw (e, drop_below)
              (drop_below_ends b fuel (push_top children stack) (dropped j c) lower
                (λ id m. elim (Memᴰ-push_top id children stack m) [
                  | inl child ↦
                      let m' : Memᴰ id (indexed c.children_index j) = rw (e, indexed) child in
                      omega (arith, lower j id m', low j (Memᴰ.head refl))
                  | inr waiting ↦ low id (Memᴰ.tail waiting)
                ])
                (omega
                  (arith, enough, rw (e, indexed) at step, total-push_top size children stack)))
      ]

forgotten :
    (fuel : ℕ) (root id : Text) (c end : NodeCache)
    → invalidate_subtree fuel root c ≡ some end
    → Leads c.children_index root id
    → IsGone id end
unfolding invalidate_subtree
forgotten fuel root id c end h leads = elim (Option-cases (drop_below fuel (root ∷ []) c)) [
  | inl e ↦ cc (rw (e, invalidate_subtree) at h)
  | inr (d, e) ↦
      let same : invalidate_listing_containing root d ≡ end =
        cc (rw (e, invalidate_subtree) at h) in
      subst (IsGone id) same (
        listing-IsGone root id d (
          drop_below-IsGone fuel (root ∷ []) c d root id e (ground (arith, text_eq_refl root))
            leads))
]

-- Where the children index has no cycle, in that every child is lower by some measure, the invalidation of
-- a subtree ends, with fuel for the ids in it, and of no id that the index leads to from the root, the
-- root included, are the node or the listing still cached.
pub invalidate_subtree-IsGone :
    (height : Text → ℕ) (b fuel : ℕ) (root : Text) (c : NodeCache)
    → IsLower height c.children_index
    → height root ≤ b
    → descent (indexed c.children_index) b root ≤ fuel
    → (end : NodeCache) × (invalidate_subtree fuel root c ≡ some end)
      × ((id : Text) → Leads c.children_index root id → IsGone id end)
unfolding invalidate_subtree
invalidate_subtree-IsGone height b fuel root c lower low enough =
    let (d, e) =
      drop_below_ends height b fuel (root ∷ []) c lower
        (λ id m. elim (Memᴰ.cases_cons m) [
          | inl same ↦ subst (λ x. height x ≤ b) (sym same) low
          | inr later ↦ absurd (Memᴰ.not-nil later)
        ])
        (omega (arith, enough)) in
    let done : invalidate_subtree fuel root c ≡ some (invalidate_listing_containing root d) =
      rw (e, invalidate_subtree) in
    (
      invalidate_listing_containing root d,
      done,
      λ id leads. forgotten fuel root id c (invalidate_listing_containing root d) done leads,
    )
