-- ===== src/Tests/Calls.antt =====
-- The theorems on single calls of api/client.rs and workflows.rs at concrete inputs.
use workflowy_mcp.Base.{
  ℕ, zero, suc, ◌≤◌, ◌≡◌, ◌⊎◌, refl, true, false, none, some, [], ◌∷◌, ◌++◌, Option, Text, ascii,
  decimal, text_eq, length, arith, map, ascii_lower, trim,
}
use workflowy_mcp.Error.{api_error, ok, err, Io}
use workflowy_mcp.Types.{WorkflowyNode, default_node}
use workflowy_mcp.Context.{is_cancelled, is_past_deadline}
use workflowy_mcp.Client.Propagation.{is_404_like, with_propagation_retry}
use workflowy_mcp.Client.Propagation.Recovers.{
  Answers, at_once, after_404, with_propagation_retry_lem,
}
use workflowy_mcp.Workflows.{MutationFootprint}
use workflowy_mcp.Workflows.Mirror.{
  CreateMirrorDryRun, CreateMirrorResult, create_mirror_dry_run, create_mirror_via_convention,
  audit_status_of,
}
use workflowy_mcp.Workflows.Mirror.DryRun.{IsForetold, create_mirror_dry_run-IsForetold}
use workflowy_mcp.Workflows.Chain.{ParentChain, walk_parent_chain}
use workflowy_mcp.Workflows.Chain.Depth.{walk_parent_chain-max_depth}
use workflowy_mcp.Tests.World.{Children, children_client, no_signals, a_id, b_id, p_id}

-- A server that does not find a new node the first two times it is asked; the world is the times left.
abbrev lagging : Io ℕ Text
unfolding ascii
lagging zero = (ok a_id, zero)
lagging (suc n) = (err (api_error 404 (ascii "gone")), n)

abbrev wait : ℕ → ℕ → ℕ
wait ms w = w

is_lag : is_404_like (map ascii_lower) (api_error 404 (ascii "gone")) ≡ true
unfolding is_404_like ascii_lower ascii decimal
is_lag = refl

lags : Answers (map ascii_lower) wait lagging (ok a_id) 2 0 2
unfolding lagging
lags =
    after_404 1 0 2 (api_error 404 (ascii "gone")) refl is_lag
      (after_404 0 1 1 (api_error 404 (ascii "gone")) refl is_lag (at_once 2 0 refl))

with_propagation_retry_lem_example :
    (with_propagation_retry (map ascii_lower) wait lagging 2).0 ≡ ok a_id
with_propagation_retry_lem_example =
    with_propagation_retry_lem (map ascii_lower) wait lagging (ok a_id) 2 2 (λ e h. cc h)
      (omega arith) lags

-- Whatever is asked for is a child of the same parent.
abbrev read_child : Text → Io Children WorkflowyNode
read_child id w = (ok record default_node { id = id; name = id; parent_id = some p_id }, w)

abbrev parent_chain : ParentChain
parent_chain = record { segments = record { id = b_id; name = b_id } ∷ []; truncated = true }

climbs : walk_parent_chain read_child no_signals b_id 1 [] ≡ (ok parent_chain, [])
unfolding walk_parent_chain text_eq is_cancelled is_past_deadline
climbs = refl

walk_parent_chain-max_depth_example :
    (length parent_chain.segments ≤ 1)
    × ((parent_chain.truncated ≡ false) ⊎ (length parent_chain.segments ≡ 1))
walk_parent_chain-max_depth_example =
    walk_parent_chain-max_depth read_child no_signals b_id 1 [] [] parent_chain climbs

-- No description has a marker.
abbrev no_marker : Text → Text → Option Text
no_marker description prefix = none

abbrev plan : CreateMirrorDryRun
plan = record {
  canonical_id = a_id;
  target_parent_id = some p_id;
  mirror_name = [];
  canonical_already_marked = false;
  would_annotate_canonical = true;
  pillar = some b_id;
}

abbrev made : CreateMirrorResult
unfolding audit_status_of
made = record {
  mirror_id = [];
  canonical_id = a_id;
  target_parent_id = some p_id;
  name = [];
  audit_status = audit_status_of true;
  annotated_canonical = true;
}

abbrev announced : MutationFootprint
unfolding ascii
announced = record {
  invalidated_nodes = a_id ∷ p_id ∷ a_id ∷ [];
  invalidated_name_index = a_id ∷ a_id ∷ [];
  created_nodes =
      record default_node {
        id = [];
        name = [];
        description = some (ascii "mirror_of: " ++ a_id);
        parent_id = some p_id;
      }
      ∷ [];
}

plans :
    create_mirror_dry_run children_client no_marker a_id (some p_id) (some b_id) [] ≡ (ok plan, [])
unfolding create_mirror_dry_run text_eq trim
plans = refl

makes :
    create_mirror_via_convention children_client no_marker a_id (some p_id) none (some b_id) []
    ≡ (ok (made, announced), [] ∷ [])
unfolding create_mirror_via_convention text_eq trim made announced
makes = refl

create_mirror_dry_run-IsForetold_example :
    IsForetold children_client no_marker none plan [] made announced ([] ∷ [])
create_mirror_dry_run-IsForetold_example =
    create_mirror_dry_run-IsForetold children_client no_marker a_id (some p_id) none (some b_id) []
      [] ([] ∷ []) plan made announced plans makes
