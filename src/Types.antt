-- ===== src/Types.antt =====
-- The node type (types.rs), with the fields that the modelled code reads, and what a create returns.
use workflowy_mcp.Base.{Option, none, [], Text}
use workflowy_mcp.Base.Int.{ℤ}

pub record WorkflowyNode : Type 0 where
  pub id : Text
  pub name : Text
  pub description : Option Text
  pub parent_id : Option Text
  pub last_modified : Option ℤ
  pub completed_at : Option ℤ
  pub layout_mode : Option Text
  pub priority : Option ℤ

-- `WorkflowyNode::default()`
abbrev pub default_node : WorkflowyNode
default_node = record {
  id = [];
  name = [];
  description = none;
  parent_id = none;
  last_modified = none;
  completed_at = none;
  layout_mode = none;
  priority = none;
}

pub record CreatedNode : Type 0 where
  pub id : Text
  pub name : Text
  pub parent_id : Option Text
