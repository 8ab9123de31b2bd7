-- ===== src/Workflows/Chain.antt =====
-- walk_parent_chain (workflows.rs): from a node up to the root. The read of a node, with its retries, is
-- an argument.
pub mod Depth
use workflowy_mcp.Base.{
  ℕ, zero, suc, Bool, true, false, Option, none, some, List, [], ◌∷◌, Text, text_eq, any, not,
}
use workflowy_mcp.Context.{WorkflowContext, is_cancelled, is_past_deadline}
use workflowy_mcp.Error.{WorkflowyError, cancelled, timeout, Result, ok, err, Io}
use workflowy_mcp.Types.{WorkflowyNode}

pub record PathSegment : Type 0 where
  pub id : Text
  pub name : Text

-- The topmost ancestor first.
pub record ParentChain : Type 0 where
  pub segments : List PathSegment
  pub truncated : Bool

-- `Some(pid) if !pid.is_empty()`
unfoldable pub parent_of : WorkflowyNode → Option Text
parent_of node = elim node.parent_id [
  | none ↦ none
  | some pid ↦ elim pid [ [] ↦ none | c ∷ s ↦ some (c ∷ s) ]
]

module _ {W : Type 0} (get_node : Text → Io W WorkflowyNode) (ctx : WorkflowContext W) where
  -- The loop, with the ids that were seen, the segments so far and as many nodes as the depth leaves.
  unfoldable pub climb : ℕ → Option Text → List Text → List PathSegment → Io W ParentChain
  unfolding is_cancelled is_past_deadline text_eq parent_of
  climb left none seen segments w = (ok record { segments = segments; truncated = false }, w)
  climb zero (some id) seen segments w =
      let (off, w₁) = is_cancelled ctx w in
      elim off [
        | true ↦ (err cancelled, w₁)
        | false ↦
            let (late, w₂) = is_past_deadline ctx w₁ in
            elim late [
              | true ↦ (err timeout, w₂)
              | false ↦
                  (ok record { segments = segments; truncated = not (any (text_eq id) seen) }, w₂)
            ]
      ]
  climb (suc left) (some id) seen segments w =
      let (off, w₁) = is_cancelled ctx w in
      elim off [
        | true ↦ (err cancelled, w₁)
        | false ↦
            let (late, w₂) = is_past_deadline ctx w₁ in
            elim late [
              | true ↦ (err timeout, w₂)
              | false ↦ elim (any (text_eq id) seen) [
                | true ↦ (ok record { segments = segments; truncated = false }, w₂)
                | false ↦
                    let (r, w₃) = get_node id w₂ in
                    elim r [
                      | err e ↦ (ok record { segments = segments; truncated = false }, w₃)
                      | ok node ↦
                          climb left (parent_of node) (id ∷ seen)
                            (record { id = node.id; name = node.name } ∷ segments) w₃
                    ]
              ]
            ]
      ]

  unfoldable pub walk_parent_chain : Text → ℕ → Io W ParentChain
  unfolding climb
  walk_parent_chain node_id max_depth w = climb max_depth (some node_id) [] [] w
