-- ===== src/Tests/Transactions.antt =====
-- The theorems on transactions at concrete inputs.
use workflowy_mcp.Base.{
  sym, pair_snd, ◌≡◌, refl, Option, none, some, List, [], ◌∷◌, Text, ascii, text_eq,
}
use workflowy_mcp.Error.{Result, ok, err, to_string, timeout, invalid_input}
use workflowy_mcp.Types.{default_node}
use workflowy_mcp.Workflows.{MutationFootprint, new_footprint}
use workflowy_mcp.Workflows.Transaction.{
  TxnOp, AppliedOp, TransactionOutcome, applied, rolled_back, parse, create, move, edit,
  run_transaction, run_steps, apply_txn_step, skipped_move, unedited, roll_back, run_txn_inverse,
  uncreated, step_create, step_of_kind, push_inverse, step_delete, check_echo,
}
use workflowy_mcp.Workflows.Transaction.Outcome.{run_transaction-IsAccounted, IsAccounted}
use workflowy_mcp.Workflows.Transaction.Rollback.{run_transaction-restores, create_op-IsReversible}
use workflowy_mcp.Workflows.Transaction.Gaps.{move_of_root_stays, description_of_edit_stays, log_of}
use workflowy_mcp.Tests.World.{
  a_id, b_id, c_id, p_id, children_client, note_client, children_client-CreateLaws,
}

abbrev same_text : Text → Text
same_text t = t

abbrev blank : TxnOp
blank = record {
  op = [];
  node_id = none;
  parent_id = none;
  new_parent_id = none;
  name = none;
  description = none;
  priority = none;
  expect_name = none;
}

abbrev create_a : TxnOp
unfolding ascii
create_a = record blank { op = ascii "create"; name = some a_id }

-- A create without a name, which fails.
abbrev create_nameless : TxnOp
unfolding ascii
create_nameless = record blank { op = ascii "create" }

abbrev move_a : TxnOp
unfolding ascii
move_a = record blank { op = ascii "move"; node_id = some a_id; new_parent_id = some p_id }

abbrev edit_a : TxnOp
unfolding ascii
edit_a = record blank { op = ascii "edit"; node_id = some a_id; description = some b_id }

is_create : parse create_a.op ≡ some create
unfolding parse ascii text_eq
is_create = refl

is_create_nameless : parse create_nameless.op ≡ some create
unfolding parse ascii text_eq
is_create_nameless = refl

is_move : parse move_a.op ≡ some move
unfolding parse ascii text_eq
is_move = refl

is_edit : parse edit_a.op ≡ some edit
unfolding parse ascii text_eq
is_edit = refl

-- A delete of a node that is not there fails, and one without an id too.
abbrev delete_c : TxnOp
unfolding ascii
delete_c = record blank { op = ascii "delete"; node_id = some c_id }

abbrev delete_none : TxnOp
unfolding ascii
delete_none = record blank { op = ascii "delete" }

run_transaction-IsAccounted_example :
    (outcome : TransactionOutcome) × (fp : MutationFootprint) × (w' : List Text) × (run_transaction
        children_client same_text
        (create_a ∷ create_nameless ∷ [])
        []
      ≡ (ok (outcome, fp), w'))
    × IsAccounted children_client same_text [] (create_a ∷ create_nameless ∷ []) outcome w'
run_transaction-IsAccounted_example =
    run_transaction-IsAccounted children_client same_text create_a (create_nameless ∷ []) []

abbrev footprint_of : Result (TransactionOutcome × MutationFootprint) → MutationFootprint
footprint_of (ok (outcome, fp)) = fp
footprint_of (err e) = new_footprint

abbrev results_of : Result (TransactionOutcome × MutationFootprint) → List AppliedOp
results_of (ok (applied results, fp)) = results
results_of (ok (rolled_back index error results log, fp)) = results
results_of (err e) = []

abbrev two_creates : Result (TransactionOutcome × MutationFootprint) × List Text
two_creates =
    run_transaction children_client same_text (create_a ∷ create_nameless ∷ []) (b_id ∷ [])

abbrev nameless : Text
unfolding ascii
nameless = ascii "Invalid input: create requires `name`"

rolls_back : two_creates ≡ (
  ok (
    rolled_back 1 nameless (results_of two_creates.0) (uncreated a_id ∷ []),
    footprint_of two_creates.0,
  ),
  b_id ∷ [],
)
unfolding run_transaction apply_txn_step parse ascii text_eq to_string step_of_kind step_create
    run_txn_inverse run_steps roll_back push_inverse
rolls_back = refl

run_transaction-restores_example : (b_id ∷ []) ≡ (b_id ∷ [])
run_transaction-restores_example =
    run_transaction-restores children_client same_text (create_a ∷ create_nameless ∷ []) (b_id ∷ [])
      (b_id ∷ []) 1 nameless (results_of two_creates.0) (uncreated a_id ∷ [])
      (footprint_of two_creates.0)
      (
        create_op-IsReversible children_client same_text children_client-CreateLaws create_a
            is_create,
        (
          create_op-IsReversible children_client same_text children_client-CreateLaws
              create_nameless is_create_nameless,
          tt,
        ),
      )
      rolls_back

moved_a : children_client.move_node a_id p_id none (b_id ∷ []) ≡ (ok tt, a_id ∷ b_id ∷ [])
unfolding text_eq
moved_a = refl

delete_fails :
    apply_txn_step children_client same_text delete_c (a_id ∷ b_id ∷ [])
    ≡ (err timeout, a_id ∷ b_id ∷ [])
unfolding apply_txn_step step_of_kind step_delete check_echo parse ascii text_eq
delete_fails = refl

move_of_root_stays_example :
    (log_of (run_transaction children_client same_text (move_a ∷ delete_c ∷ []) (b_id ∷ [])).0
      ≡ skipped_move a_id ∷ [])
    × ((run_transaction children_client same_text (move_a ∷ delete_c ∷ []) (b_id ∷ [])).1
        ≡ a_id ∷ b_id ∷ [])
unfolding move_a
move_of_root_stays_example =
    move_of_root_stays children_client same_text move_a delete_c (b_id ∷ []) (a_id ∷ b_id ∷ [])
      (a_id ∷ b_id ∷ []) a_id p_id (record default_node { id = a_id }) timeout is_move refl refl
      refl refl moved_a delete_fails

kept_note :
    (id : Text) (name : Option Text) (u u' : Option Text)
    → note_client.edit_node id name none u ≡ (ok tt, u')
    → u' ≡ u
kept_note id name u u' h = sym (pair_snd h)

abbrev idless : Text
unfolding ascii
idless = ascii "delete requires `node_id`"

delete_none_fails :
    apply_txn_step note_client same_text delete_none (some b_id)
    ≡ (err (invalid_input idless), some b_id)
unfolding apply_txn_step step_of_kind step_delete check_echo parse ascii text_eq
delete_none_fails = refl

description_of_edit_stays_example :
    (let (result, end) = run_transaction note_client same_text (edit_a ∷ delete_none ∷ []) none in
      (log_of result ≡ unedited a_id ∷ []) × (end ≡ some b_id))
unfolding edit_a
description_of_edit_stays_example =
    description_of_edit_stays note_client same_text (λ w id. w) kept_note edit_a delete_none none
      (some b_id) (some b_id) (some b_id) a_id b_id (record default_node { id = a_id; name = a_id })
      (invalid_input idless) is_edit refl refl refl refl refl delete_none_fails refl refl
