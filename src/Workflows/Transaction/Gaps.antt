-- ===== src/Workflows/Transaction/Gaps.antt =====
-- What the rollback of run_transaction (workflows.rs) leaves behind: the move of a top-level node, and
-- a description that an edit gave to a node which had none.
use workflowy_mcp.Base.{
  ◌≡◌, refl, ◌∙◌, Option, none, some, List, [], ◌∷◌, Text, pair_fst, pair_snd, inl, inr,
  Option-cases,
}
use mathlib.Core.Option
use workflowy_mcp.Base.Int.{as_i32}
use workflowy_mcp.Error.{WorkflowyError, Result, ok, err}
use workflowy_mcp.Types.{WorkflowyNode}
use workflowy_mcp.Client.{Client}
use workflowy_mcp.Workflows.{
  MutationFootprint, new_footprint, extend, invalidate_node, invalidate_cache_only,
  invalidate_parent,
}
use workflowy_mcp.Workflows.Transaction.{
  TxnOp, TransactionOutcome, RollbackEntry, applied, rolled_back, roll_back, run_steps,
  run_transaction, apply_txn_step, run_txn_inverse, push_inverse, move, edit, parse, step_of_kind,
  step_move, step_edit, un_move, restore_edit, skipped_move, unedited, moved, edited, is_empty_edit,
}

abbrev pub log_of : Result (TransactionOutcome × MutationFootprint) → List RollbackEntry
log_of (ok (applied results, fp)) = []
log_of (ok (rolled_back index error results log, fp)) = log
log_of (err e) = []

module _ {W : Type 0} (client : Client W) (render_display : Text → Text) where
  step_move_root :
      (op : TxnOp) (w w' : W) (id target : Text) (n : WorkflowyNode)
      → parse op.op ≡ some move
      → op.node_id ≡ some id
      → op.new_parent_id ≡ some target
      → client.get_node id w ≡ (ok n, w)
      → n.parent_id ≡ none
      → client.move_node id target op.priority w ≡ (ok tt, w')
      → apply_txn_step client render_display op w ≡ (
        ok (
          moved id target,
          some (un_move id none (Option.map as_i32 n.priority)),
          invalidate_node id (invalidate_cache_only target new_footprint),
        ),
        w',
      )
  unfolding apply_txn_step step_of_kind step_move Option.bind invalidate_parent
  step_move_root op w w' id target n kind named aimed read top done = rw (
    kind,
    apply_txn_step,
    named,
    aimed,
    pair_fst read,
    pair_snd read,
    top,
    pair_fst done,
    pair_snd done,
  )

  -- A transaction moves a node that has no parent (it stands at the top level), and the next operation
  -- fails, whatever its kind and its error: the rollback logs that it skips the move and changes nothing,
  -- so the workspace is the one that the failing operation left after the move.
  pub move_of_root_stays :
      (op bad : TxnOp) (w w' w'' : W) (id target : Text) (n : WorkflowyNode) (e : WorkflowyError)
      → parse op.op ≡ some move
      → op.node_id ≡ some id
      → op.new_parent_id ≡ some target
      → client.get_node id w ≡ (ok n, w)
      → n.parent_id ≡ none
      → client.move_node id target op.priority w ≡ (ok tt, w')
      → apply_txn_step client render_display bad w' ≡ (err e, w'')
      → (log_of (run_transaction client render_display (op ∷ bad ∷ []) w).0 ≡ skipped_move id ∷ [])
        × ((run_transaction client render_display (op ∷ bad ∷ []) w).1 ≡ w'')
  unfolding run_transaction run_steps roll_back run_txn_inverse push_inverse
  move_of_root_stays op bad w w' w'' id target n e kind named aimed read top done u =
      let s = step_move_root op w w' id target n kind named aimed read top done in
      (
        rw (pair_fst s, run_transaction, run_steps) (rw (pair_snd s) (rw (pair_fst u) refl)),
        rw (pair_fst s, run_transaction, run_steps)
            (rw (pair_snd s) (rw (pair_fst u) (rw (pair_snd s) (pair_snd u)))),
      )

  step_edit_ok :
      (op : TxnOp) (w w' : W) (id description : Text) (n : WorkflowyNode)
      → parse op.op ≡ some edit
      → op.node_id ≡ some id
      → op.description ≡ some description
      → client.get_node id w ≡ (ok n, w)
      → client.edit_node id op.name (some description) w ≡ (ok tt, w')
      → apply_txn_step client render_display op w ≡ (
        ok (
          edited id,
          some (restore_edit id (some n.name) n.description),
          invalidate_node id new_footprint,
        ),
        w',
      )
  unfolding apply_txn_step step_of_kind step_edit is_empty_edit
  step_edit_ok op w w' id description n kind named note read done = elim (Option-cases op.name) [
    | inl e ↦
        let d = rw e at done in
        rw (
          kind,
          apply_txn_step,
          named,
          e,
          note,
          pair_fst read,
          pair_snd read,
          pair_fst d,
          pair_snd d,
        )
    | inr (name, e) ↦
        let d = rw e at done in
        rw (
          kind,
          apply_txn_step,
          named,
          e,
          note,
          pair_fst read,
          pair_snd read,
          pair_fst d,
          pair_snd d,
        )
  ]

  restored :
      (id name : Text) (fp : MutationFootprint) (w w' : W)
      → client.edit_node id (some name) none w ≡ (ok tt, w')
      → (let (log, f, end) =
            roll_back client render_display (restore_edit id (some name) none ∷ []) fp w in
          (log ≡ unedited id ∷ []) × (end ≡ w'))
  unfolding roll_back run_txn_inverse
  restored id name fp w w' done = (
    rw (pair_fst done, roll_back),
    rw (pair_fst done, roll_back) (rw (pair_snd done, pair_fst done)),
  )

  -- A transaction gives a description to a node that had none, and the next operation fails, whatever its
  -- kind and its error, and leaves the description. Where the upstream keeps the description of a node on
  -- an edit that names none, as it documents, and the edit of the rollback succeeds, the node still has
  -- the new description after the rollback, which reports the edit as undone.
  pub description_of_edit_stays :
      (description_of : W → Text → Option Text)
      → ((id : Text) (name : Option Text) (u u' : W)
          → client.edit_node id name none u ≡ (ok tt, u')
          → description_of u' id ≡ description_of u id)
      → (op bad : TxnOp) (w w' v w'' : W) (id description : Text) (n : WorkflowyNode)
        (e : WorkflowyError)
      → parse op.op ≡ some edit
      → op.node_id ≡ some id
      → op.description ≡ some description
      → client.get_node id w ≡ (ok n, w)
      → n.description ≡ none
      → client.edit_node id op.name (some description) w ≡ (ok tt, w')
      → apply_txn_step client render_display bad w' ≡ (err e, v)
      → description_of v id ≡ some description
      → client.edit_node id (some n.name) none v ≡ (ok tt, w'')
      → (let (result, end) = run_transaction client render_display (op ∷ bad ∷ []) w in
          (log_of result ≡ unedited id ∷ []) × (description_of end id ≡ some description))
  unfolding run_transaction run_steps roll_back run_txn_inverse push_inverse
  description_of_edit_stays description_of keeps op bad w w' v w'' id description n e kind named
        note read bare done u written undone =
      let s = step_edit_ok op w w' id description n kind named note read done in
      let r =
        restored id n.name (extend new_footprint (invalidate_node id new_footprint)) v w'' undone in
      (
        rw (pair_fst s, run_transaction, run_steps)
            (rw (pair_snd s) (rw (pair_fst u) (rw (pair_snd s) (rw (pair_snd u, bare) r.0)))),
        rw (pair_fst s, run_transaction, run_steps)
            (rw (pair_snd s) (
              rw (pair_fst u) (
                rw (pair_snd s) (
                  rw (pair_snd u, bare)
                    (rw r.1 (keeps id (some n.name) v w'' undone ∙ written)))))),
      )
