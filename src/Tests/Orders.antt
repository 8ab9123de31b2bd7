-- ===== src/Tests/Orders.antt =====
-- The theorems on reorder_nodes and insert_content at concrete inputs.
use workflowy_mcp.Base.{◌≡◌, refl, none, some, List, [], ◌∷◌, ◌++◌, ascii, text_eq, filter}
use workflowy_mcp.Error.{ok}
use workflowy_mcp.Context.{is_cancelled, is_past_deadline}
use workflowy_mcp.Workflows.{
  MutationFootprint, new_footprint, invalidate_node, invalidate_cache_only, invalidate_parent,
  record_created,
}
use workflowy_mcp.Workflows.Reorder
use workflowy_mcp.Workflows.Reorder.{
  ReorderOutcome, ReorderEntry, moved_ok, reorder_nodes_via_priority, check_list, check_ids, walk,
  invalidate_all,
}
use workflowy_mcp.Workflows.Reorder.Places.{reorder_nodes-places, absent}
use workflowy_mcp.Workflows.Reorder.Account.{IsAccounted, reorder_nodes-IsAccounted}
use workflowy_mcp.Workflows.Insert
use workflowy_mcp.Workflows.Insert.{
  ParsedLine, InsertContentOutcome, insert_content_via_indented, insert_lines, descend, parent_at,
  set_elem, parse_indented_content,
}
use workflowy_mcp.Workflows.Insert.Outline.{insert_content-IsOutlined, insert_create, IsOutlined}
use workflowy_mcp.Types.{WorkflowyNode, default_node}
use workflowy_mcp.Workflows.Bulk
use workflowy_mcp.Workflows.Bulk.{
  BulkOpResult, apply_bulk_op, apply_to_nodes, apply_to_node, is_missing_tag, is_ok_of,
  requires_tag,
}
use workflowy_mcp.Workflows.Bulk.Affected.{IsReported, apply_bulk_op-IsReported}
use workflowy_mcp.Tests.World.{
  a_id, b_id, c_id, p_id, children_client, children_client-MoveLaws, no_signals,
}

abbrev both_moved : ReorderOutcome
both_moved =
    Reorder.complete p_id record { attempted = 2; succeeded = 2; failed = 0 }
      (moved_ok c_id ∷ moved_ok a_id ∷ [])

abbrev touched : MutationFootprint
touched = record {
  invalidated_nodes = p_id ∷ c_id ∷ a_id ∷ [];
  invalidated_name_index = c_id ∷ a_id ∷ [];
  created_nodes = [];
}

reorders :
    reorder_nodes_via_priority children_client no_signals p_id
      (c_id ∷ a_id ∷ [])
      (a_id ∷ b_id ∷ c_id ∷ [])
    ≡ (ok (both_moved, touched), c_id ∷ a_id ∷ b_id ∷ [])
unfolding reorder_nodes_via_priority check_list check_ids walk invalidate_all is_cancelled
    is_past_deadline text_eq invalidate_node invalidate_cache_only Reorder.outcome_of
reorders = refl

reorder_nodes-places_example :
    (c_id ∷ a_id ∷ b_id ∷ [])
    ≡ (c_id ∷ a_id ∷ []) ++ filter (absent (c_id ∷ a_id ∷ [])) (a_id ∷ b_id ∷ c_id ∷ [])
reorder_nodes-places_example =
    reorder_nodes-places children_client no_signals (λ w p. w) children_client-MoveLaws p_id p_id
      (c_id ∷ a_id ∷ []) (a_id ∷ b_id ∷ c_id ∷ []) (c_id ∷ a_id ∷ b_id ∷ [])
      record { attempted = 2; succeeded = 2; failed = 0 } (moved_ok c_id ∷ moved_ok a_id ∷ [])
      touched reorders refl

reorder_nodes-IsAccounted_example : IsAccounted p_id (c_id ∷ a_id ∷ []) both_moved
reorder_nodes-IsAccounted_example =
    reorder_nodes-IsAccounted children_client no_signals p_id (c_id ∷ a_id ∷ [])
      (a_id ∷ b_id ∷ c_id ∷ []) (c_id ∷ a_id ∷ b_id ∷ []) both_moved touched reorders

-- "a", with "b" and then "c" under it, the latter indented too far.
abbrev three_lines : List ParsedLine
three_lines =
    record { text = a_id; indent = 0 }
    ∷ record { text = b_id; indent = 1 }
    ∷ record { text = c_id; indent = 5 }
    ∷ []

parses : parse_indented_content (ascii "a\n  b\n          c\n") ≡ three_lines
unfolding parse_indented_content ascii
parses = refl

abbrev three_created : MutationFootprint
unfolding record_created
three_created =
    record (record_created c_id c_id none (some b_id) (
      record_created b_id b_id none (some a_id)
        (record_created a_id a_id none (some p_id) new_footprint))) {
          invalidated_nodes = p_id ∷ [];
        }

inserts :
    insert_content_via_indented children_client no_signals (some p_id) three_lines []
    ≡ (ok (Insert.complete (some p_id) 3 (some c_id), three_created), c_id ∷ b_id ∷ a_id ∷ [])
unfolding insert_content_via_indented insert_lines is_cancelled is_past_deadline descend parent_at
    set_elem record_created invalidate_parent invalidate_cache_only Insert.outcome_of three_created
inserts = refl

insert_content-IsOutlined_example :
    IsOutlined no_signals
      (insert_create children_client no_signals)
      (some p_id)
      three_lines
      []
      (Insert.complete (some p_id) 3 (some c_id), three_created)
      (c_id ∷ b_id ∷ a_id ∷ [])
insert_content-IsOutlined_example =
    insert_content-IsOutlined children_client no_signals (some p_id) three_lines []
      (c_id ∷ b_id ∷ a_id ∷ []) (Insert.complete (some p_id) 3 (some c_id)) three_created inserts

abbrev two_nodes : List WorkflowyNode
two_nodes = record default_node { id = a_id } ∷ record default_node { id = b_id } ∷ []

abbrev one_deleted : BulkOpResult
one_deleted = record { matched_count = 2; affected_count = 1; affected_ids = b_id ∷ [] }

abbrev forget_b : MutationFootprint
forget_b = record {
  invalidated_nodes = b_id ∷ [];
  invalidated_name_index = b_id ∷ [];
  created_nodes = [];
}

deletes_one :
    apply_bulk_op children_client
      (λ name tag. none)
      (λ tag name. name)
      Bulk.delete
      two_nodes
      none
      (b_id ∷ [])
    ≡ (ok (one_deleted, forget_b), [])
unfolding apply_bulk_op apply_to_nodes apply_to_node is_missing_tag is_ok_of requires_tag text_eq
    invalidate_node invalidate_parent
deletes_one = refl

apply_bulk_op-IsReported_example :
    IsReported children_client
      (λ name tag. none)
      (λ tag name. name)
      Bulk.delete
      none
      two_nodes
      (b_id ∷ [])
      (one_deleted, forget_b)
      []
apply_bulk_op-IsReported_example =
    apply_bulk_op-IsReported children_client (λ name tag. none) (λ tag name. name) Bulk.delete
      two_nodes none (b_id ∷ []) [] one_deleted forget_b deletes_one
