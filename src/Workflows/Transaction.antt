-- ===== src/Workflows/Transaction.antt =====
-- Transactions with best-effort rollback (workflows.rs). The JSON summaries are a data type with one
-- constructor for each shape. `render_display` of utils/html.rs rests on a regular-expression library
-- and is a parameter. The refusal of a delete leaves out the quotes and the advice of the code's text.
pub mod Outcome
pub mod Rollback
pub mod Gaps
use workflowy_mcp.Base.{
  ℕ, zero, suc, ◌+◌, ◌≡◌, Bool, true, false, not, ◌||◌, Option, none, some, List, [], ◌∷◌, ◌++◌,
  Text, ascii, text_eq, trim, if◌then◌else◌,
}
use mathlib.Core.Option
use workflowy_mcp.Base.Int.{ℤ, as_i32}
use workflowy_mcp.Error.{
  WorkflowyError, invalid_input, to_string, Result, ok, err, Io, ◌>>=◌, ◌>>◌, pure, raise, attempt,
  require, continue,
}
use workflowy_mcp.Types.{WorkflowyNode, CreatedNode}
use workflowy_mcp.Client.{Client}
use workflowy_mcp.Workflows.{
  MutationFootprint, new_footprint, invalidate_node, invalidate_cache_only, invalidate_parent,
  record_created, extend,
}

pub data TxnOpKind : Type 0 where
  create edit delete move complete uncomplete : TxnOpKind

unfoldable pub parse : Text → Option TxnOpKind
unfolding ascii text_eq
parse s =
    if text_eq s (ascii "create")
    then some create
    else if text_eq s (ascii "edit")
    then some edit
    else if text_eq s (ascii "delete")
    then some delete
    else if text_eq s (ascii "move")
    then some move
    else if text_eq s (ascii "complete")
    then some complete
    else if text_eq s (ascii "uncomplete")
    then some uncomplete
    else none

unfoldable pub as_str : TxnOpKind → Text
unfolding ascii
as_str create = ascii "create"
as_str edit = ascii "edit"
as_str delete = ascii "delete"
as_str move = ascii "move"
as_str complete = ascii "complete"
as_str uncomplete = ascii "uncomplete"

pub record TxnOp : Type 0 where
  pub op : Text
  pub node_id : Option Text
  pub parent_id : Option Text
  pub new_parent_id : Option Text
  pub name : Option Text
  pub description : Option Text
  pub priority : Option ℤ
  pub expect_name : Option Text

pub data TxnInverse : Type 0 where
  delete_created : Text → Option Text → TxnInverse
  restore_edit : Text → Option Text → Option Text → TxnInverse
  un_move : Text → Option Text → Option ℤ → TxnInverse
  restore_completion : Text → Bool → TxnInverse

-- `{ "op": …, "id": … }`
pub data Summary : Type 0 where
  created : Text → Text → Summary
  edited : Text → Summary
  deleted : Text → Summary
  moved : Text → Text → Summary
  toggled : TxnOpKind → Text → Summary

-- `{ "rolled_back": … }`, `{ "skipped": … }` and `{ "ok": false, … }`
pub data RollbackEntry : Type 0 where
  uncreated : Text → RollbackEntry
  unedited : Text → RollbackEntry
  unmoved : Text → Text → RollbackEntry
  skipped_move : Text → RollbackEntry
  untoggled : Text → Bool → RollbackEntry
  failed : Text → RollbackEntry

-- `{ "index": …, "ok": true, "summary": … }`
pub record AppliedOp : Type 0 where
  pub index : ℕ
  pub summary : Summary

pub data TransactionOutcome : Type 0 where
  applied : List AppliedOp → TransactionOutcome
  rolled_back : ℕ → Text → List AppliedOp → List RollbackEntry → TransactionOutcome

abbrev pub StepResult : Type 0
StepResult = Summary × Option TxnInverse × MutationFootprint

unfoldable pub destructive_echo_matches : (Text → Text) → Text → Text → Bool
destructive_echo_matches render_display current_name echoed_name =
    let echoed = trim echoed_name in
    text_eq (trim current_name) echoed || text_eq (trim (render_display current_name)) echoed

-- `if let Some(inv) = inverse { applied.push(inv) }`
unfoldable pub push_inverse : Option TxnInverse → List TxnInverse → List TxnInverse
push_inverse none inverses = inverses
push_inverse (some inv) inverses = inv ∷ inverses

unfoldable pub unknown_op : Text → WorkflowyError
unfolding ascii
unknown_op op = invalid_input (
    ascii "unknown transaction op '"
    ++ (op ++ ascii "'; expected create/edit/delete/move/complete/uncomplete"))

module _ {W : Type 0} (client : Client W) (render_display : Text → Text) where
  unfoldable pub step_create : TxnOp → Io W StepResult
  unfolding ascii
  step_create op = do
    name ← require op.name (invalid_input (ascii "create requires `name`"))
    node ← client.create_node name op.description op.parent_id op.priority
    pure (
      created node.id (render_display node.name),
      some (delete_created node.id op.parent_id),
      record_created node.id node.name op.description op.parent_id
          (invalidate_parent op.parent_id new_footprint),
    )

  unfoldable pub is_empty_edit : TxnOp → Bool
  is_empty_edit op = elim op.name [
    | none ↦ elim op.description [ none ↦ true | some _ ↦ false ]
    | some _ ↦ false
  ]

  unfoldable pub step_edit : TxnOp → Io W StepResult
  unfolding ascii is_empty_edit
  step_edit op = do
    node_id ← require op.node_id (invalid_input (ascii "edit requires `node_id`"))
    if is_empty_edit op
        then raise (invalid_input (ascii "edit requires at least one of `name`/`description`"))
        else do
          prev ← attempt (client.get_node node_id)
          client.edit_node node_id op.name op.description
          pure (
            edited node_id,
            Option.map (λ n. restore_edit node_id (some n.name) n.description) prev,
            invalidate_node node_id new_footprint,
          )

  -- the name-echo guard of delete
  unfoldable pub check_echo : Text → Option Text → Io W (Unit {0})
  unfolding destructive_echo_matches ascii
  check_echo node_id none = pure tt
  check_echo node_id (some expected) = do
    current ← client.get_node node_id
    if destructive_echo_matches render_display current.name expected
        then pure tt
        else raise (
            invalid_input (
              ascii "delete refused: node `"
              ++ (node_id
                  ++ (ascii "` is named "
                      ++ (current.name ++ (ascii " but expect_name was " ++ expected))))))

  unfoldable pub step_delete : TxnOp → Io W StepResult
  unfolding check_echo ascii
  step_delete op = do
    node_id ← require op.node_id (invalid_input (ascii "delete requires `node_id`"))
    check_echo node_id op.expect_name
    client.delete_node node_id
    pure (deleted node_id, none, invalidate_node node_id new_footprint)

  unfoldable pub step_move : TxnOp → Io W StepResult
  unfolding ascii
  step_move op = do
    node_id ← require op.node_id (invalid_input (ascii "move requires `node_id`"))
    new_parent ← require op.new_parent_id (invalid_input (ascii "move requires `new_parent_id`"))
    prev ← attempt (client.get_node node_id)
    let prev_parent_id = Option.bind prev (λ n. n.parent_id)
    let prev_priority = Option.map as_i32 (Option.bind prev (λ n. n.priority))
    client.move_node node_id new_parent op.priority
    pure (
      moved node_id new_parent,
      some (un_move node_id prev_parent_id prev_priority),
      invalidate_node node_id
          (invalidate_parent prev_parent_id (invalidate_cache_only new_parent new_footprint)),
    )

  unfoldable pub is_completed : WorkflowyNode → Bool
  is_completed n = elim n.completed_at [ none ↦ false | some _ ↦ true ]

  unfoldable pub step_toggle : TxnOpKind → Bool → TxnOp → Io W StepResult
  unfolding ascii as_str is_completed
  step_toggle kind target_state op = do
    node_id ← require op.node_id (invalid_input (as_str kind ++ ascii " requires `node_id`"))
    prev ← attempt (client.get_node node_id)
    client.set_completion node_id target_state
    pure (
      toggled kind node_id,
      Option.map (λ n. restore_completion node_id (is_completed n)) prev,
      invalidate_node node_id new_footprint,
    )

  unfoldable pub step_of_kind : TxnOpKind → TxnOp → Io W StepResult
  unfolding step_create step_edit step_delete step_move step_toggle
  step_of_kind create op = step_create op
  step_of_kind edit op = step_edit op
  step_of_kind delete op = step_delete op
  step_of_kind move op = step_move op
  step_of_kind complete op = step_toggle complete true op
  step_of_kind uncomplete op = step_toggle uncomplete false op

  unfoldable pub apply_txn_step : TxnOp → Io W StepResult
  apply_txn_step op = do kind ← require (parse op.op) (unknown_op op.op); step_of_kind kind op

  -- one inverse, during rollback
  unfoldable pub run_txn_inverse : TxnInverse → Io W (RollbackEntry × MutationFootprint)
  run_txn_inverse (delete_created node_id parent_id) = do
    client.delete_node node_id
    pure (uncreated node_id, invalidate_node node_id (invalidate_parent parent_id new_footprint))
  run_txn_inverse (restore_edit node_id prev_name prev_description) = do
    client.edit_node node_id prev_name prev_description
    pure (unedited node_id, invalidate_node node_id new_footprint)
  run_txn_inverse (un_move node_id (some pid) prev_priority) = do
    client.move_node node_id pid prev_priority
    pure (
      unmoved node_id pid,
      invalidate_cache_only pid (invalidate_cache_only node_id new_footprint),
    )
  run_txn_inverse (un_move node_id none prev_priority) = pure (skipped_move node_id, new_footprint)
  run_txn_inverse (restore_completion node_id prev_completed) = do
    client.set_completion node_id prev_completed
    pure (untoggled node_id prev_completed, invalidate_node node_id new_footprint)

  -- `while let Some(inv) = applied.pop()`: the stack's top is the head of the list, and a failed
  -- inverse is logged and passed over
  unfoldable pub roll_back :
      List TxnInverse → MutationFootprint → W → List RollbackEntry × MutationFootprint × W
  roll_back [] fp w = ([], fp, w)
  roll_back (inv ∷ rest) fp w =
      let (r, w') = run_txn_inverse inv w in
      elim r [
        | ok (entry, f) ↦
            let (log, fp', w'') = roll_back rest (extend fp f) w' in (entry ∷ log, fp', w'')
        | err e ↦
            let (log, fp', w'') = roll_back rest fp w' in (failed (to_string e) ∷ log, fp', w'')
      ]

  -- the loop over the operations from index `idx` on
  unfoldable pub run_steps :
      ℕ
      → List TxnOp
      → List TxnInverse
      → List AppliedOp
      → MutationFootprint
      → W
      → TransactionOutcome × MutationFootprint × W
  run_steps idx [] inverses results fp w = (applied results, fp, w)
  run_steps idx (op ∷ ops) inverses results fp w =
      let (r, w') = apply_txn_step op w in
      elim r [
        | ok (summary, inverse, f) ↦
            run_steps (idx + 1) ops (push_inverse inverse inverses)
              (results ++ record { index = idx; summary = summary } ∷ []) (extend fp f) w'
        | err e ↦
            let (log, fp', w'') = roll_back inverses fp w' in
            (rolled_back idx (to_string e) results log, fp', w'')
      ]

  unfoldable pub run_transaction : List TxnOp → Io W (TransactionOutcome × MutationFootprint)
  unfolding ascii
  run_transaction [] w = raise (invalid_input (ascii "operations must not be empty")) w
  run_transaction (op ∷ ops) w =
      let (outcome, fp, w') = run_steps 0 (op ∷ ops) [] [] new_footprint w in (ok (outcome, fp), w')
