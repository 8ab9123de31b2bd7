-- ===== src/NameIndex/Exclude/Closure.antt =====
-- What `excluded_ids` (utils/name_index.rs) returns: it ends, a cycle of parents included, with the
-- nodes that match, the children of what matches, and everything below these.
use workflowy_mcp.Base.{
  ℕ, zero, suc, ◌+◌, ◌*◌, ◌≤◌, ◌≡◌, ◌↔◌, refl, sym, ap, ◌∙◌, Bool, true, false, ◌&&◌, ◌||◌, none,
  some, List, [], ◌∷◌, ◌++◌, Text, text_eq, text_eq_iff, text_eq_refl, Dict, lookup, lookup-insert,
  length, length-append, any, if◌then◌else◌, Bool-cases, Option-cases, inl, inr, arith,
}
use workflowy_mcp.NameIndex.Disk.{PersistedEntry}
use workflowy_mcp.NameIndex.Exclude.{
  is_match, children_of, push_child, push_if, seed, push_all, has, walk, excluded_ids,
}

-- The node has this parent.
abbrev pub has_parent : Text → PersistedEntry → Bool
has_parent p n = elim n.parent_id [ none ↦ false | some q ↦ text_eq q p ]

abbrev pub parent_matches : List Text → PersistedEntry → Bool
parent_matches tokens n = elim n.parent_id [ none ↦ false | some p ↦ is_match tokens p ]

abbrev pub is_child : List PersistedEntry → Text → Text → Bool
is_child nodes p id = any (λ n. has_parent p n && text_eq id n.id) nodes

abbrev pub is_seed : List Text → List PersistedEntry → Text → Bool
is_seed tokens nodes id =
    any (λ n. text_eq id n.id && (is_match tokens n.id || parent_matches tokens n)) nodes

-- A node that matches a token or whose parent does, or a child of an excluded node.
pub data IsExcluded (tokens : List Text) (nodes : List PersistedEntry) : Text → Type 0 where
  seeded : (id : Text) → is_seed tokens nodes id ≡ true → IsExcluded tokens nodes id
  below :
      (p id : Text)
      → IsExcluded tokens nodes p
      → is_child nodes p id ≡ true
      → IsExcluded tokens nodes id

has-append : (id : Text) (xs ys : List Text) → has id (xs ++ ys) ≡ (has id xs || has id ys)
has-append id [] ys = refl
has-append id (x ∷ xs) ys = ground (arith, has-append id xs ys)

has-push_all : (id : Text) (xs ys : List Text) → has id (push_all xs ys) ≡ (has id xs || has id ys)
unfolding push_all
has-push_all id [] ys = refl
has-push_all id (x ∷ xs) ys = ground (arith, has-push_all id xs (x ∷ ys))

length-push_all : (xs ys : List Text) → length (push_all xs ys) ≡ length xs + length ys
unfolding push_all
length-push_all [] ys = omega arith
length-push_all (x ∷ xs) ys = omega (arith, length-push_all xs (x ∷ ys))

children_of-push_child :
    (p id q : Text) (children : Dict (List Text))
    → children_of q (push_child p id children)
      ≡ (if text_eq p q then children_of q children ++ id ∷ [] else children_of q children)
unfolding children_of push_child
children_of-push_child p id q children =
    ground (arith, lookup-insert p q (children_of p children ++ id ∷ []) children, text_eq_iff p q)

has-seed_children :
    (tokens : List Text) (nodes : List PersistedEntry) (children : Dict (List Text))
    (stack : List Text) (p id : Text)
    → has id (children_of p (seed tokens nodes children stack).0)
      ≡ (has id (children_of p children) || is_child nodes p id)
unfolding seed
has-seed_children tokens [] children stack p id = ground arith
has-seed_children tokens (n ∷ nodes) children stack p id = elim (Option-cases n.parent_id) [
  | inl e ↦
      rw (e, seed)
        (has-seed_children tokens nodes children (push_if (is_match tokens n.id) n.id stack) p id)
  | inr (q, e) ↦
      rw (e, seed)
        (has-seed_children tokens nodes (push_child q n.id children)
            (push_if (is_match tokens n.id) n.id (push_if (is_match tokens q) n.id stack)) p id
          ∙ ground (
            arith,
            children_of-push_child q n.id p children,
            has-append id (children_of p children) (n.id ∷ []),
          ))
]

has-push_if :
    (b : Bool) (id j : Text) (stack : List Text)
    → has j (push_if b id stack) ≡ (has j stack || (text_eq j id && b))
has-push_if b id j stack = ground arith

has-seed_stack :
    (tokens : List Text) (nodes : List PersistedEntry) (children : Dict (List Text))
    (stack : List Text) (id : Text)
    → has id (seed tokens nodes children stack).1 ≡ (has id stack || is_seed tokens nodes id)
unfolding seed
has-seed_stack tokens [] children stack id = ground arith
has-seed_stack tokens (n ∷ nodes) children stack id = elim (Option-cases n.parent_id) [
  | inl e ↦
      rw (e, seed)
        (has-seed_stack tokens nodes children (push_if (is_match tokens n.id) n.id stack) id
          ∙ ground arith)
  | inr (q, e) ↦
      rw (e, seed)
        (has-seed_stack tokens nodes (push_child q n.id children)
            (push_if (is_match tokens n.id) n.id (push_if (is_match tokens q) n.id stack)) id
          ∙ ground arith)
]

length-seed_stack :
    (tokens : List Text) (nodes : List PersistedEntry) (children : Dict (List Text))
    (stack : List Text)
    → length (seed tokens nodes children stack).1 ≤ length stack + 2 * length nodes
unfolding seed
length-seed_stack tokens [] children stack = omega arith
length-seed_stack tokens (n ∷ nodes) children stack = elim (Option-cases n.parent_id) [
  | inl e ↦
      let rest =
        length-seed_stack tokens nodes children (push_if (is_match tokens n.id) n.id stack) in
      rw (e, seed) (ground (arith, rest))
  | inr (q, e) ↦
      let rest =
        length-seed_stack tokens nodes (push_child q n.id children)
          (push_if (is_match tokens n.id) n.id (push_if (is_match tokens q) n.id stack)) in
      rw (e, seed) (ground (arith, rest))
]

-- How many nodes have the parent.
count_children : List PersistedEntry → Text → ℕ
count_children [] p = 0
count_children (n ∷ nodes) p =
    let rest = count_children nodes p in if has_parent p n then suc rest else rest

-- How many nodes have a parent that the walk has not taken.
waiting : List PersistedEntry → List Text → ℕ
waiting [] out = 0
waiting (n ∷ nodes) out =
    let rest = waiting nodes out in
    elim n.parent_id [ none ↦ rest | some p ↦ if has p out then rest else suc rest ]

length-seed_children :
    (tokens : List Text) (nodes : List PersistedEntry) (children : Dict (List Text))
    (stack : List Text) (p : Text)
    → length (children_of p (seed tokens nodes children stack).0)
      ≡ length (children_of p children) + count_children nodes p
unfolding seed count_children
length-seed_children tokens [] children stack p = omega arith
length-seed_children tokens (n ∷ nodes) children stack p = elim (Option-cases n.parent_id) [
  | inl e ↦
      rw (e, seed, count_children)
        (length-seed_children tokens nodes children (push_if (is_match tokens n.id) n.id stack) p)
  | inr (q, e) ↦
      rw (e, seed, count_children)
        (length-seed_children tokens nodes (push_child q n.id children)
            (push_if (is_match tokens n.id) n.id (push_if (is_match tokens q) n.id stack)) p
          ∙ ground (
            arith,
            children_of-push_child q n.id p children,
            length-append (children_of p children) (n.id ∷ []),
          ))
]

waiting-nil : (nodes : List PersistedEntry) → waiting nodes [] ≤ length nodes
unfolding waiting
waiting-nil [] = omega arith
waiting-nil (n ∷ nodes) = ground (arith, waiting-nil nodes)

waiting-take :
    (nodes : List PersistedEntry) (p : Text) (out : List Text)
    → has p out ≡ false
    → waiting nodes (p ∷ out) + count_children nodes p ≡ waiting nodes out
unfolding waiting count_children
waiting-take [] p out h = omega arith
waiting-take (n ∷ nodes) p out h = elim (Option-cases n.parent_id) [
  | inl e ↦ rw (e, waiting, count_children) (waiting-take nodes p out h)
  | inr (q, e) ↦
      rw (e, waiting, count_children) (ground (arith, waiting-take nodes p out h, text_eq_iff q p))
]

module _ (tokens : List Text) (nodes : List PersistedEntry) (children : Dict (List Text)) where
  -- Every pushed id is excluded, and what follows from the taken ids is taken or pushed.
  record IsWalked (stack out : List Text) : Type 0 where
    sound : (id : Text) → (has id stack || has id out) ≡ true → IsExcluded tokens nodes id
    seeds : (id : Text) → is_seed tokens nodes id ≡ true → (has id stack || has id out) ≡ true
    closed :
        (p id : Text)
        → has p out ≡ true
        → is_child nodes p id ≡ true
        → (has id stack || has id out) ≡ true

  pop_seen :
      (id : Text) (stack out : List Text)
      → has id out ≡ true
      → IsWalked (id ∷ stack) out
      → IsWalked stack out
  pop_seen id stack out h w = record {
    sound = λ j k. w.sound j (ground (arith, k));
    seeds = λ j k. ground (arith, w.seeds j k, h, text_eq_iff j id);
    closed = λ p j k l. ground (arith, w.closed p j k l, h, text_eq_iff j id);
  }

  module _ (kids : (p id : Text) → has id (children_of p children) ≡ is_child nodes p id) where
    take_new :
        (id : Text) (stack out : List Text)
        → IsWalked (id ∷ stack) out
        → IsWalked (push_all (children_of id children) stack) (id ∷ out)
    take_new id stack out w = record {
      sound = λ j k. elim (Bool-cases (is_child nodes id j)) [
        | inl child ↦ below id j (w.sound id (ground (arith, text_eq_refl id))) child
        | inr other ↦
            w.sound j
              (ground (arith, k, other, kids id j, has-push_all j (children_of id children) stack))
      ];
      seeds = λ j k. ground (arith, w.seeds j k, has-push_all j (children_of id children) stack);
      closed = λ p j k l. elim (Bool-cases (text_eq p id)) [
        | inl same ↦
            let equal : p ≡ id = ground (arith, same, text_eq_iff p id) in
            ground (
              arith,
              ap (λ q. is_child nodes q j) equal,
              l,
              kids id j,
              has-push_all j (children_of id children) stack,
            )
        | inr other ↦ ground (
          arith,
          w.closed p j (ground (arith, k, other)) l,
          has-push_all j (children_of id children) stack,
        )
      ];
    }

    module _ (counts : (p : Text) → length (children_of p children) ≡ count_children nodes p) where
      walk_ends :
          (fuel : ℕ) (stack out : List Text)
          → length stack + waiting nodes out ≤ fuel
          → IsWalked stack out
          → (done : List Text) × (walk fuel children stack out ≡ some done) × IsWalked [] done
      unfolding walk
      walk_ends fuel [] out h w = (out, refl, w)
      walk_ends zero (id ∷ stack) out h w = absurd (omega arith)
      walk_ends (suc fuel) (id ∷ stack) out h w = elim (Bool-cases (has id out)) [
        | inl seen ↦
            let (done, e, walked) =
              walk_ends fuel stack out (omega arith) (pop_seen id stack out seen w) in
            (done, rw (seen, walk) e, walked)
        | inr new ↦
            let (done, e, walked) =
              walk_ends fuel (push_all (children_of id children) stack) (id ∷ out)
                (omega (
                  arith,
                  length-push_all (children_of id children) stack,
                  counts id,
                  waiting-take nodes id out new,
                ))
                (take_new id stack out w) in
            (done, rw (new, walk) e, walked)
      ]

complete :
    (tokens : List Text) (nodes : List PersistedEntry) (children : Dict (List Text))
    (out : List Text) (id : Text)
    → IsWalked tokens nodes children [] out
    → IsExcluded tokens nodes id
    → has id out ≡ true
complete tokens nodes children out id w (seeded _ h) = w.seeds id h
complete tokens nodes children out id w (below p _ d h) =
    w.closed p id (complete tokens nodes children out p w d) h

not_seed : (nodes : List PersistedEntry) (id : Text) → is_seed [] nodes id ≡ false
unfolding is_match
not_seed [] id = refl
not_seed (n ∷ nodes) id = ground (arith, not_seed nodes id)

none-IsExcluded : (nodes : List PersistedEntry) (id : Text) → ¬ IsExcluded [] nodes id
none-IsExcluded nodes id (seeded _ h) = cc (sym (not_seed nodes id) ∙ h)
none-IsExcluded nodes id (below p _ d h) = none-IsExcluded nodes p d

-- The walk ends, whatever the parents are, and returns exactly the excluded ids: the nodes that match a
-- token or whose parent does, and the nodes below one of these.
pub excluded_ids_lem :
    (tokens : List Text) (nodes : List PersistedEntry)
    → (out : List Text) × (excluded_ids tokens nodes ≡ some out)
      × ((id : Text) → (has id out ≡ true) ↔ IsExcluded tokens nodes id)
unfolding excluded_ids children_of lookup
excluded_ids_lem [] nodes = ([], refl, λ id. (λ h. cc h, λ d. absurd (none-IsExcluded nodes id d)))
excluded_ids_lem (t ∷ tokens) nodes =
    let made = seed (t ∷ tokens) nodes [] [] in
    let (done, e, walked) =
      walk_ends (t ∷ tokens) nodes made.0 (λ p id. has-seed_children (t ∷ tokens) nodes [] [] p id)
        (λ p. omega (arith, length-seed_children (t ∷ tokens) nodes [] [] p)) (3 * length nodes)
        made.1 [] (omega (arith, length-seed_stack (t ∷ tokens) nodes [] [], waiting-nil nodes))
        record {
          sound = λ id h. seeded id (ground (arith, h, has-seed_stack (t ∷ tokens) nodes [] [] id));
          seeds = λ id h. ground (arith, h, has-seed_stack (t ∷ tokens) nodes [] [] id);
          closed = λ p id h k. cc h;
        } in
    (done, e, λ id. (λ h. walked.sound id h, complete (t ∷ tokens) nodes made.0 done id walked))
