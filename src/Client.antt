-- ===== src/Client.antt =====
-- The interface of the Workflowy client (api/client.rs) that the workflows use. `W` is the upstream
-- workspace with everything else that a request may change.
pub mod Walk
pub mod Propagation
pub mod Posture
use workflowy_mcp.Base.{Bool, Option, Text}
use workflowy_mcp.Base.Int.{ℤ}
use workflowy_mcp.Error.{Io}
use workflowy_mcp.Context.{WorkflowContext}
use workflowy_mcp.Types.{WorkflowyNode, CreatedNode}

pub record Client (W : Type 0) : Type 0 where
  pub create_node : Text → Option Text → Option Text → Option ℤ → Io W CreatedNode
  -- with the layout, the guard and the deadline
  pub create_node_cancellable :
      Text
      → Option Text
      → Option Text
      → Option ℤ
      → Option Text
      → WorkflowContext W
      → Io W CreatedNode
  pub get_node : Text → Io W WorkflowyNode
  pub edit_node : Text → Option Text → Option Text → Io W (Unit {0})
  pub set_completion : Text → Bool → Io W (Unit {0})
  pub delete_node : Text → Io W (Unit {0})
  pub move_node : Text → Text → Option ℤ → Io W (Unit {0})
