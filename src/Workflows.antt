-- ===== src/Workflows.antt =====
-- The workflows over the API client (workflows.rs), and the footprint of a mutation that they share.
pub mod Creates
pub mod Transaction
pub mod Reorder
pub mod Insert
pub mod Bulk
pub mod Copy
pub mod Mirror
pub mod Chain
use workflowy_mcp.Base.{Option, none, some, List, [], ◌∷◌, ◌++◌, Text}
use workflowy_mcp.Types.{WorkflowyNode, default_node}

pub record MutationFootprint : Type 0 where
  pub invalidated_nodes : List Text
  pub invalidated_name_index : List Text
  pub created_nodes : List WorkflowyNode

abbrev pub new_footprint : MutationFootprint
new_footprint = record { invalidated_nodes = []; invalidated_name_index = []; created_nodes = [] }

unfoldable pub invalidate_node : Text → MutationFootprint → MutationFootprint
invalidate_node id f = record f {
  invalidated_nodes = f.invalidated_nodes ++ id ∷ [];
  invalidated_name_index = f.invalidated_name_index ++ id ∷ [];
}

unfoldable pub invalidate_cache_only : Text → MutationFootprint → MutationFootprint
invalidate_cache_only id f = record f { invalidated_nodes = f.invalidated_nodes ++ id ∷ [] }

-- `if let Some(pid) = parent { footprint.invalidate_cache_only(pid) }`
unfoldable pub invalidate_parent : Option Text → MutationFootprint → MutationFootprint
unfolding invalidate_cache_only
invalidate_parent none f = f
invalidate_parent (some pid) f = invalidate_cache_only pid f

unfoldable pub record_created :
    Text → Text → Option Text → Option Text → MutationFootprint → MutationFootprint
record_created id name description parent_id f = record f {
  created_nodes =
      f.created_nodes
      ++ record default_node {
        id = id;
        name = name;
        description = description;
        parent_id = parent_id;
      }
        ∷ [];
}

unfoldable pub extend : MutationFootprint → MutationFootprint → MutationFootprint
extend f other = record {
  invalidated_nodes = f.invalidated_nodes ++ other.invalidated_nodes;
  invalidated_name_index = f.invalidated_name_index ++ other.invalidated_name_index;
  created_nodes = f.created_nodes ++ other.created_nodes;
}
