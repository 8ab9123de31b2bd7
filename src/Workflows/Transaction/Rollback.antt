-- ===== src/Workflows/Transaction/Rollback.antt =====
-- When the rollback of run_transaction (workflows.rs) restores the workspace.
use workflowy_mcp.Base.{
  pair_fst, pair_snd, pair_of_fst, ℕ, ◌+◌, ◌≡◌, refl, sym, ◌∙◌, Option, some, List, [], ◌∷◌, ◌++◌,
  All, Text, arith, inl, inr, Option-cases,
}
use mathlib.Core.Path.{subst}
use workflowy_mcp.Base.Int.{ℤ}
use workflowy_mcp.Error.{WorkflowyError, ok, err, Result-cases}
use workflowy_mcp.Types.{CreatedNode}
use workflowy_mcp.Client.{Client}
use workflowy_mcp.Workflows.{
  MutationFootprint, new_footprint, extend, invalidate_node, invalidate_parent,
}
use workflowy_mcp.Workflows.Transaction.{
  TxnOp, TxnInverse, AppliedOp, RollbackEntry, TransactionOutcome, applied, rolled_back, roll_back,
  run_steps, run_transaction, apply_txn_step, run_txn_inverse, push_inverse, Summary, create,
  step_create, step_of_kind, parse, delete_created, uncreated,
}

module _ {W : Type 0} (client : Client W) (render_display : Text → Text) where
  -- In every world, a failing step changes nothing, and a successful one has an inverse that undoes it.
  pub record IsReversible (op : TxnOp) : Type 0 where
    pub on_error :
        (w w' : W) (e : WorkflowyError)
        → apply_txn_step client render_display op w ≡ (err e, w')
        → w' ≡ w
    pub on_success :
        (w w' : W) (s : Summary) (inverse : Option TxnInverse) (f : MutationFootprint)
        → apply_txn_step client render_display op w ≡ (ok (s, inverse, f), w')
        → (inv : TxnInverse) × (entry : RollbackEntry × MutationFootprint) × (inverse ≡ some inv)
          × (run_txn_inverse client render_display inv w' ≡ (ok entry, w))

  -- Running the stacked inverses from `w`, the last one pushed first, leads back to `origin`.
  abbrev Restores : List TxnInverse → W → W → Type 0
  Restores [] w origin = w ≡ origin
  Restores (inv ∷ rest) w origin =
      (w' : W) × (entry : RollbackEntry × MutationFootprint) × (run_txn_inverse client
          render_display inv w
        ≡ (ok entry, w'))
      × Restores rest w' origin

  roll_back-Restores :
      (inverses : List TxnInverse) (fp : MutationFootprint) (w origin : W)
      → Restores inverses w origin
      → (roll_back client render_display inverses fp w).2 ≡ origin
  unfolding roll_back
  roll_back-Restores [] fp w origin h = h
  roll_back-Restores (inv ∷ rest) fp w origin (w', entry, e, h) =
      rw (pair_fst e, pair_snd e, roll_back)
        (roll_back-Restores rest (extend fp entry.1) w' origin h)

  abbrev WorldAfterRollback : TransactionOutcome → W → W → Type 0
  WorldAfterRollback (applied results) w origin = Unit
  WorldAfterRollback (rolled_back index error results log) w origin = w ≡ origin

  run_steps-Restores :
      (ops : List TxnOp) (idx : ℕ) (inverses : List TxnInverse) (results : List AppliedOp)
      (fp : MutationFootprint) (w origin : W)
      → All IsReversible ops
      → Restores inverses w origin
      → (let (outcome, f, w') = run_steps client render_display idx ops inverses results fp w in
          WorldAfterRollback outcome w' origin)
  unfolding run_steps push_inverse
  run_steps-Restores [] idx inverses results fp w origin r h = tt
  run_steps-Restores (op ∷ ops) idx inverses results fp w origin r h =
      let step = apply_txn_step client render_display op w in
      elim (Result-cases step.0) [
        | inl ((summary, inverse, f), e) ↦
            let (inv, entry, made, undone) =
              r.0.on_success w step.1 summary inverse f (pair_of_fst step e) in
            rw (e, made, run_steps)
              (run_steps-Restores ops (idx + 1) (inv ∷ inverses)
                (results ++ record { index = idx; summary = summary } ∷ []) (extend fp f) step.1
                origin r.1 (w, entry, undone, h))
        | inr (x, e) ↦
            rw (e, run_steps)
              (roll_back-Restores inverses fp step.1 origin
                (rw (r.0.on_error w step.1 x (pair_of_fst step e)) h))
      ]

  -- If every operation either fails without effect or has an inverse that undoes it, a transaction
  -- that is rolled back leaves the workspace exactly as it found it.
  pub run_transaction-restores :
      (ops : List TxnOp) (w w' : W) (index : ℕ) (error : Text) (results : List AppliedOp)
      (log : List RollbackEntry) (fp : MutationFootprint)
      → All IsReversible ops
      → run_transaction client render_display ops w
        ≡ (ok (rolled_back index error results log, fp), w')
      → w' ≡ w
  unfolding run_transaction
  run_transaction-restores [] w w' index error results log fp r e = absurd (ground arith)
  run_transaction-restores (op ∷ ops) w w' index error results log fp r e =
      let (outcome, f, end) = run_steps client render_display 0 (op ∷ ops) [] [] new_footprint w in
      let same : outcome ≡ rolled_back index error results log = cc (pair_fst e) in
      let kept = run_steps-Restores (op ∷ ops) 0 [] [] new_footprint w w r refl in
      sym (pair_snd e) ∙ subst (λ o. WorldAfterRollback o end w) same kept

-- What the upstream documents of `POST /nodes` and `DELETE /nodes/{id}`: a refused create changes
-- nothing, and deleting the node that a create returned takes the create back.
pub record CreateLaws {W : Type 0} (client : Client W) : Type 0 where
  pub refused :
      (name : Text) (description parent_id : Option Text) (priority : Option ℤ) (w w' : W)
      (e : WorkflowyError)
      → client.create_node name description parent_id priority w ≡ (err e, w')
      → w' ≡ w
  pub undone :
      (name : Text) (description parent_id : Option Text) (priority : Option ℤ) (w w' : W)
      (n : CreatedNode)
      → client.create_node name description parent_id priority w ≡ (ok n, w')
      → client.delete_node n.id w' ≡ (ok tt, w)

module _ {W : Type 0} (client : Client W) (render_display : Text → Text)
    (laws : CreateLaws client) where
  create_error :
      (op : TxnOp) (w w' : W) (e : WorkflowyError)
      → step_create client render_display op w ≡ (err e, w')
      → w' ≡ w
  unfolding step_create
  create_error op w w' e h = elim (Option-cases op.name) [
    | inl unnamed ↦ sym (pair_snd (rw (unnamed, step_create) at h))
    | inr (name, named) ↦
        let c = client.create_node name op.description op.parent_id op.priority w in
        let h' = rw (named, step_create) at h in
        elim (Result-cases c.0) [
          | inl (n, made) ↦ absurd (cc (pair_fst (rw made at h')))
          | inr (x, refused) ↦
              let h'' = rw refused at h' in
              sym (pair_snd h'')
              ∙ laws.refused name op.description op.parent_id op.priority w c.1 x
                  (pair_of_fst c refused)
        ]
  ]

  create_success :
      (op : TxnOp) (w w' : W) (s : Summary) (inverse : Option TxnInverse) (f : MutationFootprint)
      → step_create client render_display op w ≡ (ok (s, inverse, f), w')
      → (inv : TxnInverse) × (entry : RollbackEntry × MutationFootprint) × (inverse ≡ some inv)
        × (run_txn_inverse client render_display inv w' ≡ (ok entry, w))
  unfolding step_create run_txn_inverse
  create_success op w w' s inverse f h = elim (Option-cases op.name) [
    | inl unnamed ↦ absurd (cc (pair_fst (rw (unnamed, step_create) at h)))
    | inr (name, named) ↦
        let c = client.create_node name op.description op.parent_id op.priority w in
        let h' = rw (named, step_create) at h in
        elim (Result-cases c.0) [
          | inl (n, made) ↦
              let h'' = rw made at h' in
              let end : c.1 ≡ w' = pair_snd h'' in
              let gone : client.delete_node n.id w' ≡ (ok tt, w) = rw end at (
                laws.undone name op.description op.parent_id op.priority w c.1 n
                  (pair_of_fst c made)) in
              (
                delete_created n.id op.parent_id,
                (
                  uncreated n.id,
                  invalidate_node n.id (invalidate_parent op.parent_id new_footprint),
                ),
                sym (cc (pair_fst h'')),
                rw (pair_fst gone, pair_snd gone, run_txn_inverse),
              )
          | inr (x, refused) ↦ absurd (cc (pair_fst (rw refused at h')))
        ]
  ]

  pub create_op-IsReversible :
      (op : TxnOp) → parse op.op ≡ some create → IsReversible client render_display op
  unfolding apply_txn_step step_of_kind
  create_op-IsReversible op k = record {
    on_error = λ w w' e h. create_error op w w' e (rw (k, apply_txn_step) at h);
    on_success =
        λ w w' s inverse f h. create_success op w w' s inverse f (rw (k, apply_txn_step) at h);
  }
