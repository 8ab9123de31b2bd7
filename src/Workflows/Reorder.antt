-- ===== src/Workflows/Reorder.antt =====
-- reorder_nodes_via_priority (workflows.rs): the listed nodes are moved to the head of the parent, the
-- last one first. The slots of the results that the walk has filled are always the last ones, so they
-- are a list that grows at the front. The texts of the two refusals leave out their advice.
pub mod Places
pub mod Account
use workflowy_mcp.Base.{
  ℕ, ◌+◌, Bool, true, false, Option, none, some, List, [], ◌∷◌, ◌++◌, map, reverse, Text, ascii,
  text_eq, length, any, ltb, if◌then◌else◌, decimal,
}
use workflowy_mcp.Base.Int.{ℤ, pos}
use workflowy_mcp.Context.{WorkflowContext, is_cancelled, is_past_deadline}
use workflowy_mcp.Error.{WorkflowyError, invalid_input, to_string, Result, ok, err, Io}
use workflowy_mcp.Client.{Client}
use workflowy_mcp.Workflows.{
  MutationFootprint, new_footprint, invalidate_node, invalidate_cache_only,
}

abbrev pub max_reorder_nodes : ℕ
max_reorder_nodes = 200

pub data ReorderPartialReason : Type 0 where
  cancelled timeout : ReorderPartialReason

pub data ReorderEntry : Type 0 where
  moved_ok : Text → ReorderEntry
  move_error : Text → Text → ReorderEntry
  skipped : Text → ReorderEntry

pub record ReorderCounts : Type 0 where
  pub attempted : ℕ
  pub succeeded : ℕ
  pub failed : ℕ

pub data ReorderOutcome : Type 0 where
  complete : Text → ReorderCounts → List ReorderEntry → ReorderOutcome
  -- the parent, the reason, the counts, how many were skipped, the results
  partial : Text → ReorderPartialReason → ReorderCounts → ℕ → List ReorderEntry → ReorderOutcome

-- What the walk leaves: why it stopped early, the ids not reached (the last one first), the filled
-- slots and the counts.
pub record Walk : Type 0 where
  pub bailed : Option ReorderPartialReason
  pub unreached : List Text
  pub results : List ReorderEntry
  pub succeeded : ℕ
  pub failed : ℕ

-- The checks on each id, in the order of the list: a duplicate, or the parent itself.
unfoldable pub check_ids : Text → List Text → List Text → Option WorkflowyError
unfolding text_eq ascii
check_ids parent_id seen [] = none
check_ids parent_id seen (id ∷ ids) =
    let rest = check_ids parent_id (id ∷ seen) ids in
    if any (text_eq id) seen
    then some (invalid_input (ascii "node_ids contains duplicate `" ++ (id ++ ascii "`")))
    else if text_eq id parent_id
    then some (invalid_input (ascii "node_ids contains parent_id `" ++ (id ++ ascii "`")))
    else rest

-- The whole validation: the list is not empty, not too long, and its ids pass.
unfoldable pub check_list : Text → List Text → Option WorkflowyError
unfolding check_ids ascii decimal
check_list parent_id [] = some (invalid_input (ascii "node_ids must not be empty"))
check_list parent_id (id ∷ ids) =
    if ltb max_reorder_nodes (length (id ∷ ids))
    then some (
        invalid_input
          (ascii "node_ids length " ++ (decimal (length (id ∷ ids)) ++ ascii " exceeds the cap")))
    else check_ids parent_id [] (id ∷ ids)

unfoldable pub invalidate_all : List Text → MutationFootprint → MutationFootprint
unfolding invalidate_node
invalidate_all [] footprint = footprint
invalidate_all (id ∷ ids) footprint = invalidate_all ids (invalidate_node id footprint)

-- The placeholders for the ids not reached, and the outcome.
unfoldable pub outcome_of : Text → Walk → ReorderOutcome
outcome_of parent_id done =
    let results = map skipped (reverse done.unreached) ++ done.results in
    let counts : ReorderCounts = record {
      attempted = done.succeeded + done.failed;
      succeeded = done.succeeded;
      failed = done.failed;
    } in
    elim done.bailed [
      | none ↦ complete parent_id counts results
      | some reason ↦ partial parent_id reason counts (length done.unreached) results
    ]

module _ {W : Type 0} (client : Client W) (ctx : WorkflowContext W) where
  -- `for (idx, id) in node_ids.iter().enumerate().rev()`
  unfoldable pub walk : Text → List Text → List ReorderEntry → ℕ → ℕ → W → Walk × W
  unfolding is_cancelled is_past_deadline to_string
  walk parent_id [] results succeeded failed w = (
    record {
      bailed = none;
      unreached = [];
      results = results;
      succeeded = succeeded;
      failed = failed;
    },
    w,
  )
  walk parent_id (id ∷ ids) results succeeded failed w =
      let stop : ReorderPartialReason → Walk = λ reason. record {
        bailed = some reason;
        unreached = id ∷ ids;
        results = results;
        succeeded = succeeded;
        failed = failed;
      } in
      let (is_off, w₁) = is_cancelled ctx w in
      elim is_off [
        | true ↦ (stop cancelled, w₁)
        | false ↦
            let (is_late, w₂) = is_past_deadline ctx w₁ in
            elim is_late [
              | true ↦ (stop timeout, w₂)
              | false ↦
                  let (r, w₃) = client.move_node id parent_id (some (pos 0)) w₂ in
                  elim r [
                    | ok _ ↦ walk parent_id ids (moved_ok id ∷ results) (succeeded + 1) failed w₃
                    | err e ↦
                        walk parent_id ids (move_error id (to_string e) ∷ results) succeeded
                          (failed + 1) w₃
                  ]
            ]
      ]

  unfoldable pub reorder_nodes_via_priority :
      Text → List Text → Io W (ReorderOutcome × MutationFootprint)
  unfolding invalidate_cache_only invalidate_all
  reorder_nodes_via_priority parent_id node_ids w = elim (check_list parent_id node_ids) [
    | some e ↦ (err e, w)
    | none ↦
        let (done, w') = walk parent_id (reverse node_ids) [] 0 0 w in
        (
          ok (
            outcome_of parent_id done,
            invalidate_all node_ids (invalidate_cache_only parent_id new_footprint),
          ),
          w',
        )
  ]
