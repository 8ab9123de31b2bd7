-- ===== src/Workflows/Reorder/Places.antt =====
-- The order of the parent's children after reorder_nodes_via_priority (workflows.rs), under the law
-- that a move with priority 0 puts the node before all the others.
use mathlib.Core.List.{reverse_aux, reverse-reverse}
use mathlib.Core.Path.{subst}
use workflowy_mcp.Base.{
  ℕ, ◌+◌, ◌≤◌, ◌≡◌, refl, sym, ap, ◌∙◌, Bool, true, false, not, none, some, List, [], ◌∷◌, ◌++◌,
  reverse, Text, text_eq, text_eq_iff, text_eq_refl, any, filter, Bool-cases, Option-cases,
  pair_fst, pair_snd, pair_of_fst, inl, inr, arith, length, ltb,
}
use workflowy_mcp.Context.{WorkflowContext, is_cancelled, is_past_deadline}
use workflowy_mcp.Error.{ok, Result-cases, to_string}
use workflowy_mcp.Client.{Client}
use workflowy_mcp.Base.Int.{pos}
use workflowy_mcp.Workflows.{MutationFootprint}
use workflowy_mcp.Workflows.Reorder.{
  ReorderEntry, moved_ok, move_error, ReorderOutcome, ReorderCounts, complete, partial,
  max_reorder_nodes, Walk, walk, outcome_of, check_list, check_ids, reorder_nodes_via_priority,
}

abbrev pub absent : List Text → Text → Bool
absent ids c = not (any (text_eq c) ids)

-- The ids of the first list, one after the other, are not yet in the second one.
abbrev Fresh : List Text → List Text → Type 0
Fresh [] planted = Unit
Fresh (id ∷ ids) planted = (any (text_eq id) planted ≡ false) × Fresh ids (id ∷ planted)

abbrev Nodup : List Text → Type 0
Nodup [] = Unit
Nodup (id ∷ ids) = (any (text_eq id) ids ≡ false) × Nodup ids

check_ids-disjoint :
    (parent c : Text) (seen ids : List Text)
    → check_ids parent seen ids ≡ none
    → any (text_eq c) seen ≡ true
    → any (text_eq c) ids ≡ false
unfolding check_ids
check_ids-disjoint parent c seen [] h m = refl
check_ids-disjoint parent c seen (id ∷ ids) h m =
    ground (arith, check_ids-disjoint parent c (id ∷ seen) ids, text_eq_iff c id)

check_ids-Nodup :
    (parent : Text) (seen ids : List Text) → check_ids parent seen ids ≡ none → Nodup ids
unfolding check_ids
check_ids-Nodup parent seen [] h = tt
check_ids-Nodup parent seen (id ∷ ids) h = ground (
  arith,
  check_ids-Nodup parent (id ∷ seen) ids,
  check_ids-disjoint parent id (id ∷ seen) ids,
  text_eq_refl id,
)

Nodup-suffix : (rest planted : List Text) → Nodup (reverse_aux rest planted) → Nodup planted
Nodup-suffix [] planted h = h
Nodup-suffix (id ∷ rest) planted h = (Nodup-suffix rest (id ∷ planted) h).1

Fresh-of_Nodup : (rest planted : List Text) → Nodup (reverse_aux rest planted) → Fresh rest planted
Fresh-of_Nodup [] planted h = tt
Fresh-of_Nodup (id ∷ rest) planted h =
    ((Nodup-suffix rest (id ∷ planted) h).0, Fresh-of_Nodup rest (id ∷ planted) h)

Fresh-reverse : (ids : List Text) → Nodup ids → Fresh (reverse ids) []
Fresh-reverse ids h = Fresh-of_Nodup (reverse ids) [] (rw (reverse-reverse ids) h)

check_list-Nodup : (parent : Text) (ids : List Text) → check_list parent ids ≡ none → Nodup ids
unfolding check_list
check_list-Nodup parent [] h = tt
check_list-Nodup parent (id ∷ ids) h =
    elim (Bool-cases (ltb max_reorder_nodes (length (id ∷ ids)))) [
      | inl long ↦ cc (rw long at h)
      | inr short ↦ check_ids-Nodup parent [] (id ∷ ids) (rw short at h)
    ]

abbrev failed_of : ReorderOutcome → ℕ
failed_of (complete p counts results) = counts.failed
failed_of (partial p reason counts skips results) = counts.failed

outcome_complete :
    (parent p : Text) (done : Walk) (counts : ReorderCounts) (results : List ReorderEntry)
    → outcome_of parent done ≡ complete p counts results
    → (done.bailed ≡ none) × (done.failed ≡ counts.failed)
unfolding outcome_of
outcome_complete parent p done counts results h = elim (Option-cases done.bailed) [
  | inl e ↦ (e, ap failed_of (rw (e, outcome_of) at h))
  | inr (reason, e) ↦ cc (rw (e, outcome_of) at h)
]

filter-append :
    (p : Text → Bool) (xs ys : List Text) → filter p (xs ++ ys) ≡ filter p xs ++ filter p ys
filter-append p [] ys = refl
filter-append p (x ∷ xs) ys = ground (arith, filter-append p xs ys)

filter-planted :
    (id : Text) (planted : List Text)
    → any (text_eq id) planted ≡ false
    → filter (λ c. not (text_eq c id)) planted ≡ planted
filter-planted id [] h = refl
filter-planted id (x ∷ xs) h =
    ground (arith, filter-planted id xs, text_eq_iff id x, text_eq_iff x id)

filter-filter :
    (id : Text) (planted others : List Text)
    → filter (λ c. not (text_eq c id)) (filter (absent planted) others)
      ≡ filter (absent (id ∷ planted)) others
filter-filter id planted [] = refl
filter-filter id planted (x ∷ xs) = ground (arith, filter-filter id planted xs)

filter-all : (xs : List Text) → filter (absent []) xs ≡ xs
filter-all [] = refl
filter-all (x ∷ xs) = ap (λ r. x ∷ r) (filter-all xs)

plant :
    (id : Text) (planted others : List Text)
    → any (text_eq id) planted ≡ false
    → id ∷ filter (λ c. not (text_eq c id)) (planted ++ filter (absent planted) others)
      ≡ (id ∷ planted) ++ filter (absent (id ∷ planted)) others
plant id planted others h =
    ap (λ r. id ∷ r)
      (filter-append (λ c. not (text_eq c id)) planted (filter (absent planted) others)
        ∙ rw (filter-planted id planted h, filter-filter id planted others))

module _ {W : Type 0} (client : Client W) (ctx : WorkflowContext W) where
  -- What a successful move with priority 0 does to the children of the target, and the polls, which
  -- change no children.
  pub record MoveLaws (children_of : W → Text → List Text) : Type 0 where
    pub on_move :
        (id parent : Text) (w w' : W)
        → client.move_node id parent (some (pos 0)) w ≡ (ok tt, w')
        → children_of w' parent ≡ id ∷ filter (λ c. not (text_eq c id)) (children_of w parent)
    pub on_cancel : (w : W) (p : Text) → children_of (is_cancelled ctx w).1 p ≡ children_of w p
    pub on_deadline :
        (w : W) (p : Text) → children_of (is_past_deadline ctx w).1 p ≡ children_of w p

  walk-failed-le :
      (parent : Text) (rest : List Text) (results : List ReorderEntry) (s f : ℕ) (w : W)
      → f ≤ (walk client ctx parent rest results s f w).0.failed
  unfolding walk
  walk-failed-le parent [] results s f w = omega arith
  walk-failed-le parent (id ∷ rest) results s f w =
      let polled = is_cancelled ctx w in
      let late = is_past_deadline ctx polled.1 in
      let step = client.move_node id parent (some (pos 0)) late.1 in
      elim (Bool-cases polled.0) [
        | inl off ↦ rw (off, walk) (omega arith)
        | inr on ↦ elim (Bool-cases late.0) [
          | inl over ↦ rw (on, over, walk) (omega arith)
          | inr early ↦ elim (Result-cases step.0) [
            | inl (t, e) ↦
                rw (on, early, e, walk)
                  (walk-failed-le parent rest (moved_ok id ∷ results) (s + 1) f step.1)
            | inr (x, e) ↦
                rw (on, early, e, walk)
                  (omega (
                    arith,
                    walk-failed-le parent rest (move_error id (to_string x) ∷ results) s (f + 1)
                        step.1,
                  ))
          ]
        ]
      ]

  walk-places :
      (children_of : W → Text → List Text)
      → MoveLaws children_of
      → (parent : Text) (rest planted others : List Text) (results : List ReorderEntry) (s f : ℕ)
        (w : W)
      → Fresh rest planted
      → children_of w parent ≡ planted ++ filter (absent planted) others
      → (walk client ctx parent rest results s f w).0.bailed ≡ none
      → (walk client ctx parent rest results s f w).0.failed ≡ 0
      → children_of (walk client ctx parent rest results s f w).1 parent
        ≡ reverse_aux rest planted ++ filter (absent (reverse_aux rest planted)) others
  unfolding walk
  walk-places children_of laws parent [] planted others results s f w fresh now b n = now
  walk-places children_of laws parent (id ∷ rest) planted others results s f w fresh now b n =
      let polled = is_cancelled ctx w in
      let late = is_past_deadline ctx polled.1 in
      let step = client.move_node id parent (some (pos 0)) late.1 in
      elim (Bool-cases polled.0) [
        | inl off ↦ cc (rw (off, walk) at b)
        | inr on ↦ elim (Bool-cases late.0) [
          | inl over ↦ cc (rw (on, over, walk) at b)
          | inr early ↦ elim (Result-cases step.0) [
            | inl (t, e) ↦
                rw (on, early, e, walk)
                  (walk-places children_of laws parent rest (id ∷ planted) others
                    (moved_ok id ∷ results) (s + 1) f step.1 fresh.1
                    (laws.on_move id parent late.1 step.1 (pair_of_fst step e)
                      ∙ ap (λ cs. id ∷ filter (λ c. not (text_eq c id)) cs)
                          (laws.on_deadline polled.1 parent ∙ laws.on_cancel w parent ∙ now)
                      ∙ plant id planted others fresh.0)
                    (rw (on, early, e, walk) at b) (rw (on, early, e, walk) at n))
            | inr (x, e) ↦
                let more =
                  walk-failed-le parent rest (move_error id (to_string x) ∷ results) s (f + 1)
                    step.1 in
                let none_failed = rw (on, early, e, walk) at n in ground (arith, more, none_failed)
          ]
        ]
      ]

  -- Where a successful move with priority 0 puts its node before the other children of the target,
  -- a complete reorder in which no move failed leaves the children of the parent as the listed ids, in
  -- the order of the list, followed by the other children in their old order.
  pub reorder_nodes-places :
      (children_of : W → Text → List Text)
      → MoveLaws children_of
      → (parent p : Text) (node_ids : List Text) (w w' : W) (counts : ReorderCounts)
        (results : List ReorderEntry) (fp : MutationFootprint)
      → reorder_nodes_via_priority client ctx parent node_ids w
        ≡ (ok (complete p counts results, fp), w')
      → counts.failed ≡ 0
      → children_of w' parent ≡ node_ids ++ filter (absent node_ids) (children_of w parent)
  unfolding reorder_nodes_via_priority
  reorder_nodes-places children_of laws parent p node_ids w w' counts results fp h n =
      elim (Option-cases (check_list parent node_ids)) [
        | inr (e, bad) ↦ cc (pair_fst (rw (bad, reorder_nodes_via_priority) at h))
        | inl good ↦
            let run = walk client ctx parent (reverse node_ids) [] 0 0 w in
            let back = rw (good, reorder_nodes_via_priority) at h in
            let made : outcome_of parent run.0 ≡ complete p counts results = cc (pair_fst back) in
            let (reached, same) = outcome_complete parent p run.0 counts results made in
            let placed =
              walk-places children_of laws parent (reverse node_ids) [] (children_of w parent) [] 0
                0 w (Fresh-reverse node_ids (check_list-Nodup parent node_ids good))
                (sym (filter-all (children_of w parent))) reached (same ∙ n) in
            rw (sym (pair_snd back)) (
              subst
                (λ ids.
                  children_of run.1 parent ≡ ids ++ filter (absent ids) (children_of w parent))
                (reverse-reverse node_ids) placed)
      ]
