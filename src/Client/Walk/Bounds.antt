-- ===== src/Client/Walk/Bounds.antt =====
-- The cap of the subtree walk (api/client.rs).
use mathlib.Core.Path.{subst}
use workflowy_mcp.Base.{
  ℕ, zero, suc, ◌-◌, ◌≤◌, ◌≡◌, max, Bool, Option, none, some, List, [], ◌∷◌, ◌++◌, map, Text,
  length, length-append, length-take-le, take, leb, ltb, Bool-cases, Option-cases, inl, inr, arith,
  pair_fst,
}
use workflowy_mcp.Context.{WorkflowContext}
use workflowy_mcp.Error.{Result, ok, err, Result-cases}
use workflowy_mcp.Retry.{is_signal}
use workflowy_mcp.Types.{WorkflowyNode}
use workflowy_mcp.Client.Walk.{
  Reads, Drained, SubtreeFetch, TruncationReason, status, push_level, drain, recover_level,
  last_level, cut_level, fetch_descendants, fetched, descend_from, get_subtree_with_controls,
  order_level_by_parent,
}

module _ {W : Type 0} (reads : Reads W) (ctx : WorkflowContext W) (patient : Bool) (limit : ℕ) where
  length-push_level :
      (level out : List WorkflowyNode)
      → length out ≤ limit
      → length (push_level reads ctx patient limit level out).0 ≤ limit
  unfolding push_level
  length-push_level [] out h = h
  length-push_level (n ∷ ns) out h = elim (Bool-cases (leb limit (length out))) [
    | inl full ↦ rw (full, push_level) h
    | inr room ↦
        rw (room, push_level)
          (length-push_level ns (out ++ n ∷ []) (ground (arith, room, length-append out (n ∷ []))))
  ]

  length-last_level :
      (level out : List WorkflowyNode) (skipped : List Text)
      → length out ≤ limit
      → length (last_level reads ctx patient limit level out skipped).out ≤ limit
  unfolding last_level
  length-last_level level out skipped h =
      elim (Bool-cases (ltb (limit - length out) (length level))) [
        | inl over ↦
            rw (over, last_level)
              (omega (
                arith,
                length-append out (take (limit - length out) level),
                length-take-le (limit - length out) level,
              ))
        | inr fits ↦ rw (fits, last_level) (ground (arith, fits, length-append out level))
      ]

  length-cut_level :
      (r : TruncationReason) (d : Drained) (level out : List WorkflowyNode) (skipped : List Text)
      → length out ≤ limit
      → length (cut_level reads ctx patient limit r d level out skipped).out ≤ limit
  unfolding cut_level
  length-cut_level r d level out skipped h =
      let next = order_level_by_parent d.next_level level in
      omega (
        arith,
        length-append out (take (limit - length out) next),
        length-take-le (limit - length out) next,
      )

  length-fetch_descendants :
      (left : ℕ) (level out : List WorkflowyNode) (skipped : List Text) (w : W)
      → length out ≤ limit
      → length (fetch_descendants reads ctx patient limit left level out skipped w).0.out ≤ limit
  unfolding fetch_descendants
  length-fetch_descendants zero level out skipped w h = length-last_level level out skipped h
  length-fetch_descendants (suc left) [] out skipped w h = length-last_level [] out skipped h
  length-fetch_descendants (suc left) (n ∷ ns) out skipped w h =
      let level = n ∷ ns in
      let pushed = push_level reads ctx patient limit level out in
      let small = length-push_level level out h in
      elim (Option-cases pushed.1) [
        | inr (anchor, over) ↦ rw (over, fetch_descendants) small
        | inl fits ↦
            let signal = status reads ctx patient limit w in
            elim (Option-cases signal.0) [
              | inr (r, on) ↦ rw (fits, fetch_descendants, on) small
              | inl off ↦
                  let order = reads.completion_order (map (λ v. v.id) level) signal.1 in
                  let d = drain reads ctx patient limit (length pushed.0) order.0 [] [] order.1 in
                  elim (Option-cases d.0.stop) [
                    | inr (r, halted) ↦
                        rw (fits, fetch_descendants, off, halted)
                          (length-cut_level r d.0 level pushed.0 skipped small)
                    | inl drained ↦
                        let more = recover_level reads ctx patient limit d.0.level_skipped d.1 in
                        rw (fits, fetch_descendants, off, drained)
                          (length-fetch_descendants left
                            (order_level_by_parent (d.0.next_level ++ more.0.0) level) pushed.0
                            (skipped ++ more.0.1) more.1 small)
                  ]
            ]
      ]

  abbrev IsCapped : Result SubtreeFetch → Type 0
  IsCapped (ok fetch) = length fetch.nodes ≤ max 1 limit
  IsCapped (err e) = Unit

  descend_from-IsCapped :
      (max_depth : ℕ) (get : W → Result (List WorkflowyNode) × W) (anchor : Option Text)
      (nodes : List WorkflowyNode) (w : W)
      → length nodes ≤ limit
      → IsCapped (descend_from reads ctx patient limit max_depth get anchor nodes w).0
  unfolding descend_from fetched
  descend_from-IsCapped max_depth get anchor nodes w h =
      let asked = get w in
      elim (Result-cases asked.0) [
        | inl (level, e) ↦
            rw (e, descend_from)
              (omega (arith, length-fetch_descendants max_depth level nodes [] asked.1 h))
        | inr (x, e) ↦ elim (Bool-cases (is_signal x)) [
          | inl halt ↦ rw (e, descend_from, halt) (omega arith)
          | inr other ↦ rw (e, descend_from, other) tt
        ]
      ]

  get_subtree-IsCapped :
      (root_id : Option Text) (max_depth : ℕ) (w : W)
      → IsCapped (get_subtree_with_controls reads ctx patient limit root_id max_depth w).0
  unfolding get_subtree_with_controls fetched
  get_subtree-IsCapped root_id max_depth w =
      let signal = status reads ctx patient limit w in
      elim (Option-cases signal.0) [
        | inr (r, on) ↦ rw (on, get_subtree_with_controls) (omega arith)
        | inl off ↦ elim (Option-cases root_id) [
          | inl top ↦
              rw (off, get_subtree_with_controls, top)
                (descend_from-IsCapped max_depth reads.get_top_level_nodes_cancellable none []
                  signal.1 (omega arith))
          | inr (id, at_id) ↦
              let found = reads.get_node_cancellable id signal.1 in
              elim (Result-cases found.0) [
                | inr (x, e) ↦ elim (Bool-cases (is_signal x)) [
                  | inl halt ↦ rw (off, get_subtree_with_controls, at_id, e, halt) (omega arith)
                  | inr other ↦ rw (off, get_subtree_with_controls, at_id, e, other) tt
                ]
                | inl (root, e) ↦ elim (Bool-cases (leb limit 1)) [
                  | inl full ↦ rw (off, get_subtree_with_controls, at_id, e, full) (omega arith)
                  | inr room ↦
                      let again = status reads ctx patient limit found.1 in
                      elim (Option-cases again.0) [
                        | inr (r, on) ↦
                            rw (off, get_subtree_with_controls, at_id, e, room, on) (omega arith)
                        | inl still_off ↦
                            rw (off, get_subtree_with_controls, at_id, e, room, still_off)
                              (descend_from-IsCapped max_depth (reads.get_children_cancellable id)
                                (some id) (root ∷ []) again.1 (ground (arith, room)))
                      ]
                ]
              ]
        ]
      ]

  -- Whatever the client answers and in whatever order, a subtree that is fetched has no more nodes than
  -- the limit, or one if the limit is zero.
  pub get_subtree_with_controls-limit :
      (root_id : Option Text) (max_depth : ℕ) (w w' : W) (fetch : SubtreeFetch)
      → get_subtree_with_controls reads ctx patient limit root_id max_depth w ≡ (ok fetch, w')
      → length fetch.nodes ≤ max 1 limit
  get_subtree_with_controls-limit root_id max_depth w w' fetch h =
      subst IsCapped (pair_fst h) (get_subtree-IsCapped root_id max_depth w)
