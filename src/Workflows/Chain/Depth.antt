-- ===== src/Workflows/Chain/Depth.antt =====
-- How far the walk up the parents (workflows.rs, walk_parent_chain) goes.
use mathlib.Core.Path.{subst}
use workflowy_mcp.Base.{
  ℕ, zero, suc, ◌+◌, ◌≤◌, ◌≡◌, ◌⊎◌, refl, false, Option, none, some, List, [], ◌∷◌, Text, text_eq,
  any, length, Bool-cases, inl, inr, arith, pair_fst,
}
use workflowy_mcp.Context.{WorkflowContext, is_cancelled, is_past_deadline}
use workflowy_mcp.Error.{Result, ok, err, Io, Result-cases}
use workflowy_mcp.Types.{WorkflowyNode}
use workflowy_mcp.Workflows.Chain.{PathSegment, ParentChain, parent_of, climb, walk_parent_chain}

module _ {W : Type 0} (get_node : Text → Io W WorkflowyNode) (ctx : WorkflowContext W) where
  -- With at most so many segments, and exactly so many if it is cut.
  abbrev IsCut : ℕ → Result ParentChain → Type 0
  IsCut depth (err e) = Unit
  IsCut depth (ok chain) =
      (length chain.segments ≤ depth)
      × ((chain.truncated ≡ false) ⊎ (length chain.segments ≡ depth))

  climb-IsCut :
      (left : ℕ) (current : Option Text) (seen : List Text) (segments : List PathSegment) (w : W)
      → IsCut (length segments + left) (climb get_node ctx left current seen segments w).0
  unfolding climb
  climb-IsCut zero none seen segments w = (omega arith, inl refl)
  climb-IsCut (suc left) none seen segments w = (omega arith, inl refl)
  climb-IsCut zero (some id) seen segments w =
      let off = is_cancelled ctx w in
      elim (Bool-cases off.0) [
        | inl halt ↦ rw (halt, climb) tt
        | inr on ↦
            let late = is_past_deadline ctx off.1 in
            elim (Bool-cases late.0) [
              | inl over ↦ rw (on, climb, over) tt
              | inr in_time ↦ rw (on, climb, in_time) (omega arith, inr (omega arith))
            ]
      ]
  climb-IsCut (suc left) (some id) seen segments w =
      let off = is_cancelled ctx w in
      elim (Bool-cases off.0) [
        | inl halt ↦ rw (halt, climb) tt
        | inr on ↦
            let late = is_past_deadline ctx off.1 in
            elim (Bool-cases late.0) [
              | inl over ↦ rw (on, climb, over) tt
              | inr in_time ↦ elim (Bool-cases (any (text_eq id) seen)) [
                | inl cycle ↦ rw (on, climb, in_time, cycle) (omega arith, inl refl)
                | inr new ↦
                    let got = get_node id late.1 in
                    elim (Result-cases got.0) [
                      | inr (e, failed) ↦
                          rw (on, climb, in_time, new, failed) (omega arith, inl refl)
                      | inl (node, found) ↦
                          let segment : PathSegment = record { id = node.id; name = node.name } in
                          let rest =
                            climb-IsCut left (parent_of node) (id ∷ seen) (segment ∷ segments)
                              got.1 in
                          let same : suc (length segments) + left ≡ length segments + suc left =
                            omega arith in
                          rw (on, climb, in_time, new, found)
                            (subst
                              (λ d.
                                IsCut d
                                  (climb get_node ctx left (parent_of node) (id ∷ seen)
                                    (segment ∷ segments) got.1).0)
                              same rest)
                    ]
              ]
            ]
      ]

  -- Whatever the client answers, cycles of parents included, a chain has at most max_depth segments, and it
  -- says that it is truncated only if it has exactly so many.
  pub walk_parent_chain-max_depth :
      (node_id : Text) (max_depth : ℕ) (w w' : W) (chain : ParentChain)
      → walk_parent_chain get_node ctx node_id max_depth w ≡ (ok chain, w')
      → (length chain.segments ≤ max_depth)
        × ((chain.truncated ≡ false) ⊎ (length chain.segments ≡ max_depth))
  unfolding walk_parent_chain
  walk_parent_chain-max_depth node_id max_depth w w' chain h =
      let from_zero : 0 + max_depth ≡ max_depth = omega arith in
      subst (IsCut max_depth) (pair_fst h) (
        subst (λ d. IsCut d (climb get_node ctx max_depth (some node_id) [] [] w).0) from_zero
          (climb-IsCut max_depth (some node_id) [] [] w))
