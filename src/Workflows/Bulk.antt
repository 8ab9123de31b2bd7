-- ===== src/Workflows/Bulk.antt =====
-- apply_bulk_op (workflows.rs). The tag functions of utils/tag_parser.rs rest on a regular-expression
-- library and are parameters: the name with a tag added, if it has it not yet, and the name without the
-- tag of the call.
pub mod Affected
use workflowy_mcp.Base.{
  ℕ, zero, suc, ◌+◌, Bool, true, false, ◌&&◌, Option, none, some, List, [], ◌∷◌, ◌++◌, Text, ascii,
  text_eq, length, if◌then◌else◌,
}
use workflowy_mcp.Error.{WorkflowyError, invalid_input, Result, ok, err, Io}
use workflowy_mcp.Types.{WorkflowyNode}
use workflowy_mcp.Client.{Client}
use workflowy_mcp.Workflows.{MutationFootprint, new_footprint, invalidate_node, invalidate_parent}

pub data BulkOp : Type 0 where
  delete complete uncomplete add_tag remove_tag : BulkOp

unfoldable pub parse_bulk_op : Text → Option BulkOp
unfolding ascii text_eq
parse_bulk_op s =
    if text_eq s (ascii "delete")
    then some delete
    else if text_eq s (ascii "complete")
    then some complete
    else if text_eq s (ascii "uncomplete")
    then some uncomplete
    else if text_eq s (ascii "add_tag")
    then some add_tag
    else if text_eq s (ascii "remove_tag")
    then some remove_tag
    else none

unfoldable pub bulk_op_as_str : BulkOp → Text
unfolding ascii
bulk_op_as_str delete = ascii "delete"
bulk_op_as_str complete = ascii "complete"
bulk_op_as_str uncomplete = ascii "uncomplete"
bulk_op_as_str add_tag = ascii "add_tag"
bulk_op_as_str remove_tag = ascii "remove_tag"

unfoldable pub requires_tag : BulkOp → Bool
requires_tag add_tag = true
requires_tag remove_tag = true
requires_tag _ = false

pub record BulkOpResult : Type 0 where
  pub matched_count : ℕ
  pub affected_count : ℕ
  pub affected_ids : List Text

-- `….await.is_ok()`
unfoldable pub is_ok_of : {W A : Type 0} → Io W A → W → Bool × W
is_ok_of call w = let (r, w') = call w in (elim r [ ok _ ↦ true | err _ ↦ false ], w')

unfoldable pub is_missing_tag : BulkOp → Option Text → Bool
unfolding requires_tag
is_missing_tag op tag = requires_tag op && elim tag [ none ↦ true | some _ ↦ false ]

module _ {W : Type 0} (client : Client W) (add_tag_to_name : Text → Text → Option Text)
    (strip_tag : Option Text → Text → Text) where
  -- One node. A missing tag, at which the code would panic, is refused before the loop.
  unfoldable pub apply_to_node : BulkOp → Option Text → WorkflowyNode → W → Bool × W
  unfolding is_ok_of
  apply_to_node delete tag node w = is_ok_of (client.delete_node node.id) w
  apply_to_node complete tag node w = is_ok_of (client.set_completion node.id true) w
  apply_to_node uncomplete tag node w = is_ok_of (client.set_completion node.id false) w
  apply_to_node add_tag none node w = (false, w)
  apply_to_node add_tag (some tag) node w = elim (add_tag_to_name node.name tag) [
    | none ↦ (true, w)
    | some new_name ↦ is_ok_of (client.edit_node node.id (some new_name) none) w
  ]
  apply_to_node remove_tag tag node w =
      is_ok_of (client.edit_node node.id (some (strip_tag tag node.name)) none) w

  -- the loop, with the ids and the footprint so far
  unfoldable pub apply_to_nodes :
      BulkOp
      → Option Text
      → List WorkflowyNode
      → ℕ
      → List Text
      → MutationFootprint
      → W
      → (ℕ × List Text × MutationFootprint) × W
  unfolding apply_to_node invalidate_node invalidate_parent
  apply_to_nodes op tag [] affected ids footprint w = ((affected, ids, footprint), w)
  apply_to_nodes op tag (node ∷ nodes) affected ids footprint w =
      let (success, w') = apply_to_node op tag node w in
      elim success [
        | true ↦
            apply_to_nodes op tag nodes (affected + 1) (ids ++ node.id ∷ [])
              (invalidate_parent node.parent_id (invalidate_node node.id footprint)) w'
        | false ↦ apply_to_nodes op tag nodes affected ids footprint w'
      ]

  unfoldable pub apply_bulk_op :
      BulkOp → List WorkflowyNode → Option Text → Io W (BulkOpResult × MutationFootprint)
  unfolding is_missing_tag apply_to_nodes ascii bulk_op_as_str
  apply_bulk_op op nodes tag w = elim (is_missing_tag op tag) [
    | true ↦ (err (invalid_input (ascii "operation_tag required for " ++ bulk_op_as_str op)), w)
    | false ↦
        let ((affected, ids, footprint), w') = apply_to_nodes op tag nodes 0 [] new_footprint w in
        (
          ok (
            record { matched_count = length nodes; affected_count = affected; affected_ids = ids },
            footprint,
          ),
          w',
        )
  ]
