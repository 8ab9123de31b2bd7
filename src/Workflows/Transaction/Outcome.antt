-- ===== src/Workflows/Transaction/Outcome.antt =====
-- What run_transaction of workflows.rs reports: every operation and every rollback step is accounted
-- for, whatever the client does.
use mathlib.Core.List.{append_assoc, append-nil}
use mathlib.Core.Path.{subst}
use workflowy_mcp.Base.{
  ℕ, ◌+◌, ◌≡◌, refl, sym, Option, none, some, List, [], ◌∷◌, ◌++◌, length, length-append, arith,
  Text, inl, inr,
}
use workflowy_mcp.Error.{WorkflowyError, to_string, ok, err, Result-cases}
use workflowy_mcp.Client.{Client}
use workflowy_mcp.Workflows.{MutationFootprint, new_footprint, extend}
use workflowy_mcp.Workflows.Transaction.{
  TxnOp, TxnInverse, AppliedOp, Summary, RollbackEntry, failed, TransactionOutcome, applied,
  rolled_back, roll_back, run_steps, run_transaction, apply_txn_step, run_txn_inverse, push_inverse,
}

-- The inverse of an operation, where it has one, is on top of those of the operations before it.
abbrev pub newest_first : Option TxnInverse → List TxnInverse → List TxnInverse
newest_first none inverses = inverses
newest_first (some inv) inverses = inv ∷ inverses

module _ {W : Type 0} (client : Client W) (render_display : Text → Text) where
  -- The operations succeed one after the other, from the first world to the last. The results number them
  -- from zero and have their summaries; the inverses are the newest first.
  pub data Succeed (w₀ : W) : List TxnOp → List AppliedOp → List TxnInverse → W → Type 0 where
    not_yet : Succeed w₀ [] [] [] w₀
    and_then :
        (ops : List TxnOp) (results : List AppliedOp) (inverses : List TxnInverse) (w w' : W)
        (op : TxnOp) (summary : Summary) (inverse : Option TxnInverse) (f : MutationFootprint)
        → Succeed w₀ ops results inverses w
        → apply_txn_step client render_display op w ≡ (ok (summary, inverse, f), w')
        → Succeed w₀
            (ops ++ op ∷ [])
            (results ++ record { index = length ops; summary = summary } ∷ [])
            (newest_first inverse inverses)
            w'

  -- The inverses run one after the other, and each has its entry in the log, whether it succeeds or not.
  pub data Undone : List TxnInverse → W → List RollbackEntry → W → Type 0 where
    finished : (w : W) → Undone [] w [] w
    undone :
        (inv : TxnInverse) (rest : List TxnInverse) (entry : RollbackEntry) (f : MutationFootprint)
        (log : List RollbackEntry) (w w' end : W)
        → run_txn_inverse client render_display inv w ≡ (ok (entry, f), w')
        → Undone rest w' log end
        → Undone (inv ∷ rest) w (entry ∷ log) end
    not_undone :
        (inv : TxnInverse) (rest : List TxnInverse) (e : WorkflowyError) (log : List RollbackEntry)
        (w w' end : W)
        → run_txn_inverse client render_display inv w ≡ (err e, w')
        → Undone rest w' log end
        → Undone (inv ∷ rest) w (failed (to_string e) ∷ log) end

  -- Either all operations succeed and are reported, or those before one succeed and are reported, this one
  -- fails with the error that is reported, and the inverses of those before it run, as logged.
  pub data IsAccounted (w₀ : W) (ops : List TxnOp) : TransactionOutcome → W → Type 0 where
    all_succeed :
        (results : List AppliedOp) (inverses : List TxnInverse) (end : W)
        → Succeed w₀ ops results inverses end
        → IsAccounted w₀ ops (applied results) end
    one_fails :
        (before after : List TxnOp) (failing : TxnOp) (e : WorkflowyError)
        (results : List AppliedOp) (inverses : List TxnInverse) (log : List RollbackEntry)
        (w w' end : W)
        → ops ≡ before ++ failing ∷ after
        → Succeed w₀ before results inverses w
        → apply_txn_step client render_display failing w ≡ (err e, w')
        → Undone inverses w' log end
        → IsAccounted w₀ ops (rolled_back (length before) (to_string e) results log) end

  roll_back-Undone :
      (inverses : List TxnInverse) (fp : MutationFootprint) (w : W)
      → (let (log, f, end) = roll_back client render_display inverses fp w in
          Undone inverses w log end)
  unfolding roll_back
  roll_back-Undone [] fp w = finished w
  roll_back-Undone (inv ∷ rest) fp w =
      let step = run_txn_inverse client render_display inv w in
      elim (Result-cases step.0) [
        | inl ((entry, f), e) ↦
            rw (e, roll_back)
              (undone inv rest entry f _ w step.1 _ (cc e)
                (roll_back-Undone rest (extend fp f) step.1))
        | inr (x, e) ↦
            rw (e, roll_back)
              (not_undone inv rest x _ w step.1 _ (cc e) (roll_back-Undone rest fp step.1))
      ]

  pushed :
      (inverse : Option TxnInverse) (inverses : List TxnInverse)
      → push_inverse inverse inverses ≡ newest_first inverse inverses
  unfolding push_inverse
  pushed none inverses = refl
  pushed (some inv) inverses = refl

  run_steps-IsAccounted :
      (w₀ : W) (done ops : List TxnOp) (inverses : List TxnInverse) (results : List AppliedOp)
      (fp : MutationFootprint) (w : W) (idx : ℕ)
      → idx ≡ length done
      → Succeed w₀ done results inverses w
      → (let (outcome, f, end) = run_steps client render_display idx ops inverses results fp w in
          IsAccounted w₀ (done ++ ops) outcome end)
  unfolding run_steps
  run_steps-IsAccounted w₀ done [] inverses results fp w idx at_idx h =
      subst (λ l. IsAccounted w₀ l (applied results) w) (sym (append-nil done))
        (all_succeed results inverses w h)
  run_steps-IsAccounted w₀ done (op ∷ ops) inverses results fp w idx at_idx h =
      let step = apply_txn_step client render_display op w in
      elim (Result-cases step.0) [
        | inl ((summary, inverse, f), e) ↦
            rw (e, run_steps, at_idx, pushed inverse inverses, ← append_assoc done (op ∷ []) ops)
              (run_steps-IsAccounted w₀ (done ++ op ∷ []) ops (newest_first inverse inverses)
                (results ++ record { index = length done; summary = summary } ∷ []) (extend fp f)
                step.1 (length done + 1) (omega (arith, length-append done (op ∷ [])))
                (and_then done results inverses w step.1 op summary inverse f h (cc e)))
        | inr (x, e) ↦
            rw (e, run_steps, at_idx)
              (one_fails done ops op x results inverses _ w step.1 _ refl h (cc e)
                (roll_back-Undone inverses fp step.1))
      ]

  -- On a non-empty list, whatever the client answers, run_transaction returns an outcome that accounts
  -- for the operations, from the world before it to the world after it. Either all succeed, in their
  -- order, and are reported with the indices 0, 1, …; or the outcome names the index and the error of the
  -- operation that fails, those before it succeed, in their order, and are exactly what is reported, none
  -- after it runs, and the inverses of those before it run, the newest first, each with its entry in the
  -- log, whether it succeeds or not.
  pub run_transaction-IsAccounted :
      (op : TxnOp) (ops : List TxnOp) (w : W)
      → (outcome : TransactionOutcome) × (fp : MutationFootprint) × (w' : W) × (run_transaction
            client render_display
            (op ∷ ops)
            w
          ≡ (ok (outcome, fp), w'))
        × IsAccounted w (op ∷ ops) outcome w'
  unfolding run_transaction
  run_transaction-IsAccounted op ops w =
      let (outcome, fp, w') = run_steps client render_display 0 (op ∷ ops) [] [] new_footprint w in
      (
        outcome,
        fp,
        w',
        refl,
        run_steps-IsAccounted w [] (op ∷ ops) [] [] new_footprint w 0 refl not_yet,
      )
