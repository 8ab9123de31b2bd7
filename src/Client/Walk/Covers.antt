-- ===== src/Client/Walk/Covers.antt =====
-- The subtree walk (api/client.rs) is honest: what it does not report as truncated, it covers.
use mathlib.Core.List.{Memᴰ}
use mathlib.Core.Path.{subst}
use workflowy_mcp.Base.{
  ℕ, ◌≤◌, ◌≡◌, sym, Bool, false, Option, none, some, List, [], ◌∷◌, Text, leb, Bool-cases,
  Option-cases, inl, inr, pair_fst,
}
use workflowy_mcp.Context.{WorkflowContext}
use workflowy_mcp.Error.{Result, ok, err, Result-cases}
use workflowy_mcp.Retry.{is_signal}
use workflowy_mcp.Types.{WorkflowyNode}
use workflowy_mcp.Client.Walk.{
  Reads, Walked, SubtreeFetch, TruncationReason, abort_reason, status, fetch_descendants, fetched,
  ended, descend_from, get_subtree_with_controls,
}
use workflowy_mcp.Client.Walk.Drains.{ReadsTree}
use workflowy_mcp.Client.Walk.Levels.{Below, fetch_descendants-Covered}

module _ {W : Type 0} (reads : Reads W) (ctx : WorkflowContext W) (patient : Bool) (limit : ℕ)
    (kids : Text → List WorkflowyNode) (reads_tree : ReadsTree reads kids) where
  reason-fetched :
      (done : Walked)
      → (fetched reads ctx patient limit done).truncated ≡ false
      → done.outcome.reason ≡ none
  unfolding fetched
  reason-fetched done h = elim (Option-cases done.outcome.reason) [
    | inl e ↦ e
    | inr (r, e) ↦ cc (rw (e, fetched) at h)
  ]

  module _ (id : Text) (n max_depth : ℕ) (v : WorkflowyNode) (few : n ≤ max_depth)
      (below : Below kids n (kids id) v) where
    abbrev IsHonest : Result SubtreeFetch → Type 0
    IsHonest (ok fetch) = fetch.truncated ≡ false → Memᴰ v fetch.nodes
    IsHonest (err e) = Unit

    ended-IsHonest :
        (nodes : List WorkflowyNode) (r : TruncationReason) (anchor : Option Text)
        → IsHonest (ok (ended reads ctx patient limit nodes r anchor))
    unfolding fetched ended
    ended-IsHonest nodes r anchor = λ h. cc h

    descend_from-IsHonest :
        (nodes : List WorkflowyNode) (w : W)
        → IsHonest
            (descend_from reads ctx patient limit max_depth
              (reads.get_children_cancellable id)
              (some id)
              nodes
              w).0
    unfolding descend_from fetched
    descend_from-IsHonest nodes w =
        let asked = reads.get_children_cancellable id w in
        elim (Result-cases asked.0) [
          | inl (level, e) ↦
              let answer : reads.get_children_cancellable id w ≡ (ok level, asked.1) = cc e in
              let same = reads_tree.listed id w asked.1 level answer in
              rw (e, descend_from)
                (λ h.
                  let c =
                    fetch_descendants-Covered reads ctx patient limit kids reads_tree max_depth
                      level nodes [] asked.1
                      (reason-fetched
                        (fetch_descendants reads ctx patient limit max_depth level nodes []
                          asked.1).0
                        h) in
                  c.reached n v few (subst (λ l. Below kids n l v) (sym same) below))
          | inr (x, e) ↦ elim (Bool-cases (is_signal x)) [
            | inl halt ↦
                rw (e, descend_from, halt) (ended-IsHonest nodes (abort_reason x) (some id))
            | inr other ↦ rw (e, descend_from, other) tt
          ]
        ]

    get_subtree-IsHonest :
        (w : W)
        → IsHonest (get_subtree_with_controls reads ctx patient limit (some id) max_depth w).0
    unfolding get_subtree_with_controls
    get_subtree-IsHonest w =
        let signal = status reads ctx patient limit w in
        elim (Option-cases signal.0) [
          | inr (r, on) ↦ rw (on, get_subtree_with_controls) (ended-IsHonest [] r (some id))
          | inl off ↦
              let found = reads.get_node_cancellable id signal.1 in
              elim (Result-cases found.0) [
                | inr (x, e) ↦ elim (Bool-cases (is_signal x)) [
                  | inl halt ↦
                      rw (off, get_subtree_with_controls, e, halt)
                        (ended-IsHonest [] (abort_reason x) (some id))
                  | inr other ↦ rw (off, get_subtree_with_controls, e, other) tt
                ]
                | inl (root, e) ↦ elim (Bool-cases (leb limit 1)) [
                  | inl full ↦
                      rw (off, get_subtree_with_controls, e, full)
                        (ended-IsHonest (root ∷ []) TruncationReason.node_limit (some id))
                  | inr room ↦
                      let again = status reads ctx patient limit found.1 in
                      elim (Option-cases again.0) [
                        | inr (r, on) ↦
                            rw (off, get_subtree_with_controls, e, room, on)
                              (ended-IsHonest (root ∷ []) r (some id))
                        | inl still_off ↦
                            rw (off, get_subtree_with_controls, e, room, still_off)
                              (descend_from-IsHonest (root ∷ []) again.1)
                      ]
                ]
              ]
        ]

  -- A subtree that is not reported as truncated is whole: where the listings that are answered are those of
  -- the tree and every request ends, in whatever order, it has every node that is at most max_depth levels
  -- below a child of the root. Cuts, signals and branches dropped after their retries are all reported.
  pub get_subtree_with_controls-covers :
      (id : Text) (n max_depth : ℕ) (v : WorkflowyNode) (w w' : W) (fetch : SubtreeFetch)
      → get_subtree_with_controls reads ctx patient limit (some id) max_depth w ≡ (ok fetch, w')
      → fetch.truncated ≡ false
      → n ≤ max_depth
      → Below kids n (kids id) v
      → Memᴰ v fetch.nodes
  get_subtree_with_controls-covers id n max_depth v w w' fetch h whole few below =
      subst (IsHonest id n max_depth v few below) (pair_fst h)
        (get_subtree-IsHonest id n max_depth v few below w) whole
