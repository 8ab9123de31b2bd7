-- ===== src/Workflows/Reorder/Account.antt =====
-- The results and the counts of reorder_nodes_via_priority (workflows.rs).
use mathlib.Core.List.{reverse_aux, reverse_aux-eq, reverse-reverse}
use workflowy_mcp.Base.{
  ℕ, ◌+◌, ◌*◌, ◌<◌, ◌≡◌, refl, sym, ◌∙◌, none, some, List, [], ◌∷◌, ◌++◌, map, reverse, Text,
  length, Bool-cases, Option-cases, pair_fst, inl, inr, arith,
}
use workflowy_mcp.Context.{WorkflowContext, is_cancelled, is_past_deadline}
use workflowy_mcp.Error.{ok, Result-cases, to_string}
use workflowy_mcp.Client.{Client}
use workflowy_mcp.Base.Int.{pos}
use workflowy_mcp.Workflows.{MutationFootprint}
use workflowy_mcp.Workflows.Reorder.{
  ReorderEntry, moved_ok, move_error, skipped, ReorderOutcome, complete, partial, Walk, walk,
  outcome_of, check_list, reorder_nodes_via_priority, ReorderPartialReason,
}

abbrev node_id_of : ReorderEntry → Text
node_id_of (moved_ok id) = id
node_id_of (move_error id error) = id
node_id_of (skipped id) = id

abbrev is_ok : ReorderEntry → ℕ
is_ok (moved_ok id) = 1
is_ok _ = 0

abbrev is_error : ReorderEntry → ℕ
is_error (move_error id error) = 1
is_error _ = 0

abbrev is_skipped : ReorderEntry → ℕ
is_skipped (skipped id) = 1
is_skipped _ = 0

abbrev sum : (ReorderEntry → ℕ) → List ReorderEntry → ℕ
sum f [] = 0
sum f (e ∷ es) = f e + sum f es

-- One result for each id of the list, in the order of the list, and counts that are those of the
-- results; a partial outcome has skipped an id.
unfoldable pub IsAccounted : Text → List Text → ReorderOutcome → Type 0
IsAccounted parent_id ids (complete p counts results) =
    (p ≡ parent_id)
    × (map node_id_of results ≡ ids)
    × (sum is_ok results ≡ counts.succeeded)
    × (sum is_error results ≡ counts.failed)
    × (sum is_skipped results ≡ 0)
    × (counts.attempted ≡ counts.succeeded + counts.failed)
IsAccounted parent_id ids (partial p reason counts skips results) =
    (p ≡ parent_id)
    × (map node_id_of results ≡ ids)
    × (sum is_ok results ≡ counts.succeeded)
    × (sum is_error results ≡ counts.failed)
    × (sum is_skipped results ≡ skips)
    × (counts.attempted ≡ counts.succeeded + counts.failed)
    × (0 < skips)

sum-append :
    (f : ReorderEntry → ℕ) (xs ys : List ReorderEntry) → sum f (xs ++ ys) ≡ sum f xs + sum f ys
sum-append f [] ys = omega arith
sum-append f (x ∷ xs) ys = omega (arith, sum-append f xs ys)

sum-skipped :
    (f : ReorderEntry → ℕ) (k : ℕ) (ids : List Text)
    → ((id : Text) → f (skipped id) ≡ k)
    → sum f (map skipped ids) ≡ length ids * k
sum-skipped f k [] h = omega arith
sum-skipped f k (id ∷ ids) h = rw (h id, sum-skipped f k ids h) (omega arith)

length-reverse_aux : (xs ys : List Text) → length (reverse_aux xs ys) ≡ length xs + length ys
length-reverse_aux [] ys = omega arith
length-reverse_aux (x ∷ xs) ys = omega (arith, length-reverse_aux xs (x ∷ ys))

ids-skipped :
    (ids : List Text) (results : List ReorderEntry)
    → map node_id_of (map skipped ids ++ results) ≡ ids ++ map node_id_of results
ids-skipped [] results = refl
ids-skipped (id ∷ ids) results = rw (ids-skipped ids results)

ids-reverse :
    (ids : List Text) (results : List ReorderEntry)
    → map node_id_of (map skipped (reverse ids) ++ results)
      ≡ reverse_aux ids (map node_id_of results)
ids-reverse ids results =
    ids-skipped (reverse ids) results ∙ sym (reverse_aux-eq ids (map node_id_of results))

-- What the walk keeps true of the filled slots, and how it ends.
record IsWalked (target : List Text) (done : Walk) : Type 0 where
  ids : reverse_aux done.unreached (map node_id_of done.results) ≡ target
  oks : sum is_ok done.results ≡ done.succeeded
  errors : sum is_error done.results ≡ done.failed
  skips : sum is_skipped done.results ≡ 0
  all_reached : done.bailed ≡ none → length done.unreached ≡ 0
  some_left :
      (reason : ReorderPartialReason) → done.bailed ≡ some reason → 0 < length done.unreached

module _ {W : Type 0} (client : Client W) (ctx : WorkflowContext W) where
  walk-IsWalked :
      (parent : Text) (rest : List Text) (results : List ReorderEntry) (s f : ℕ) (w : W)
      → sum is_ok results ≡ s
      → sum is_error results ≡ f
      → sum is_skipped results ≡ 0
      → IsWalked
          (reverse_aux rest (map node_id_of results))
          (walk client ctx parent rest results s f w).0
  unfolding walk
  walk-IsWalked parent [] results s f w a b c = record {
    ids = refl;
    oks = a;
    errors = b;
    skips = c;
    all_reached = λ h. refl;
    some_left = λ r h. cc h;
  }
  walk-IsWalked parent (id ∷ rest) results s f w a b c =
      let polled = is_cancelled ctx w in
      let late = is_past_deadline ctx polled.1 in
      let step = client.move_node id parent (some (pos 0)) late.1 in
      elim (Bool-cases polled.0) [
        | inl off ↦
            rw (off, walk)
              record {
                ids = refl;
                oks = a;
                errors = b;
                skips = c;
                all_reached = λ h. cc h;
                some_left = λ r h. omega arith;
              }
        | inr on ↦ elim (Bool-cases late.0) [
          | inl over ↦
              rw (on, over, walk)
                record {
                  ids = refl;
                  oks = a;
                  errors = b;
                  skips = c;
                  all_reached = λ h. cc h;
                  some_left = λ r h. omega arith;
                }
          | inr early ↦ elim (Result-cases step.0) [
            | inl (t, e) ↦
                rw (on, early, e, walk)
                  (walk-IsWalked parent rest (moved_ok id ∷ results) (s + 1) f step.1
                    (omega (arith, a)) (omega (arith, b)) (omega (arith, c)))
            | inr (x, e) ↦
                rw (on, early, e, walk)
                  (walk-IsWalked parent rest (move_error id (to_string x) ∷ results) s (f + 1)
                    step.1 (omega (arith, a)) (omega (arith, b)) (omega (arith, c)))
          ]
        ]
      ]

outcome-IsAccounted :
    (parent : Text) (node_ids : List Text) (done : Walk)
    → IsWalked (reverse (reverse node_ids)) done
    → IsAccounted parent node_ids (outcome_of parent done)
unfolding outcome_of IsAccounted
outcome-IsAccounted parent node_ids done h =
    let filled = map skipped (reverse done.unreached) in
    let ids = ids-reverse done.unreached done.results ∙ h.ids ∙ reverse-reverse node_ids in
    let oks = sum-append is_ok filled done.results in
    let errors = sum-append is_error filled done.results in
    let skips = sum-append is_skipped filled done.results in
    let no_ok = sum-skipped is_ok 0 (reverse done.unreached) (λ id. refl) in
    let no_error = sum-skipped is_error 0 (reverse done.unreached) (λ id. refl) in
    let each = sum-skipped is_skipped 1 (reverse done.unreached) (λ id. refl) in
    let len = length-reverse_aux done.unreached [] in
    elim (Option-cases done.bailed) [
      | inl e ↦ rw e (
        refl,
        ids,
        omega (arith, oks, no_ok, h.oks),
        omega (arith, errors, no_error, h.errors),
        omega (arith, skips, each, len, h.skips, h.all_reached e),
        refl,
      )
      | inr (reason, e) ↦ rw e (
        refl,
        ids,
        omega (arith, oks, no_ok, h.oks),
        omega (arith, errors, no_error, h.errors),
        omega (arith, skips, each, len, h.skips),
        refl,
        h.some_left reason e,
      )
    ]

module _ {W : Type 0} (client : Client W) (ctx : WorkflowContext W) where
  -- Whatever the client and the polls do, a reorder that returns an outcome has one result for each
  -- id of the list, in the order of the list; its counts are those of its results, and a partial
  -- outcome has skipped at least one id where a complete one has skipped none.
  pub reorder_nodes-IsAccounted :
      (parent : Text) (node_ids : List Text) (w w' : W) (outcome : ReorderOutcome)
      (fp : MutationFootprint)
      → reorder_nodes_via_priority client ctx parent node_ids w ≡ (ok (outcome, fp), w')
      → IsAccounted parent node_ids outcome
  unfolding reorder_nodes_via_priority
  reorder_nodes-IsAccounted parent node_ids w w' outcome fp h =
      elim (Option-cases (check_list parent node_ids)) [
        | inr (e, bad) ↦ cc (pair_fst (rw (bad, reorder_nodes_via_priority) at h))
        | inl good ↦
            let run = walk-IsWalked client ctx parent (reverse node_ids) [] 0 0 w refl refl refl in
            let made =
              outcome-IsAccounted parent node_ids
                (walk client ctx parent (reverse node_ids) [] 0 0 w).0 run in
            let same : outcome_of parent (walk client ctx parent (reverse node_ids) [] 0 0 w).0
                ≡ outcome =
              cc (pair_fst (rw (good, reorder_nodes_via_priority) at h)) in
            rw same at made
      ]
