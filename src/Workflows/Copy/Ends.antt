-- ===== src/Workflows/Copy/Ends.antt =====
-- The queue of a copy (workflows.rs, deep_copy_subtree) runs empty where the parents form no cycle.
use mathlib.Core.List.{Memᴰ}
use mathlib.Core.List.Memᴰ
use workflowy_mcp.Base.{
  ℕ, zero, suc, ◌≤◌, ◌<◌, ◌≡◌, ◌≢◌, refl, ap, ◌∙◌, Bool, Option, none, some, List, [], ◌∷◌, ◌++◌,
  Text, Bool-cases, Option-cases, inl, inr, arith, total, total-append, descent, descent_step,
}
use workflowy_mcp.Context.{WorkflowContext, is_cancelled, is_past_deadline}
use workflowy_mcp.Error.{Result-cases}
use workflowy_mcp.Types.{WorkflowyNode}
use workflowy_mcp.Client.{Client}
use workflowy_mcp.Client.Walk.{Reads}
use workflowy_mcp.Workflows.Copy.{
  Copying, children_of, copy_node, copy_queue, copy_fetched, start_of,
}

module _ (nodes : List WorkflowyNode) where
  -- How many nodes a copy of the node makes, down to so many levels.
  abbrev pub copy_size : ℕ → WorkflowyNode → ℕ
  copy_size b n = descent (λ p. children_of nodes p.id) b n

  module _ (height : Text → ℕ)
      (lower : (p : Text) (c : WorkflowyNode)
        → Memᴰ c (children_of nodes p)
        → height c.id < height p) where
    size_step :
        (b : ℕ) (n : WorkflowyNode)
        → height n.id ≤ b
        → suc (total (copy_size b) (children_of nodes n.id)) ≡ copy_size b n
    size_step b n h =
        descent_step (λ p. children_of nodes p.id) (λ p. height p.id) (λ p c m. lower p.id c m) b n
          h

    module _ {W : Type 0} (client : Client W) (reads : Reads W) (default_deadline : W → Bool × W)
        (ctx : WorkflowContext W) (transform : WorkflowyNode → Text × Option Text) where
      copy_queue_ends :
          (new_root : Text) (b fuel : ℕ) (queue : List WorkflowyNode) (now : Copying) (w : W)
          → ((c : WorkflowyNode) → Memᴰ c queue → height c.id ≤ b)
          → total (copy_size b) queue ≤ fuel
          → (copy_queue client reads default_deadline ctx transform nodes new_root fuel queue now
              w).0
            ≢ none
      unfolding copy_queue
      copy_queue_ends new_root b fuel [] now w low enough = λ h. cc h
      copy_queue_ends new_root b zero (n ∷ queue) now w low enough =
          absurd (omega (arith, size_step b n (low n (Memᴰ.head refl))))
      copy_queue_ends new_root b (suc fuel) (n ∷ queue) now w low enough =
          let off = is_cancelled ctx w in
          elim (Bool-cases off.0) [
            | inl cancelled ↦ rw (cancelled, copy_queue) (λ h. cc h)
            | inr on ↦
                let late = is_past_deadline ctx off.1 in
                elim (Bool-cases late.0) [
                  | inl over ↦ rw (on, copy_queue, over) (λ h. cc h)
                  | inr in_time ↦
                      let step =
                        copy_node client reads default_deadline ctx transform nodes new_root n now
                          late.1 in
                      elim (Result-cases step.0) [
                        | inr (e, failed) ↦ rw (on, copy_queue, in_time, failed) (λ h. cc h)
                        | inl (next, made) ↦
                            rw (on, copy_queue, in_time, made)
                              (copy_queue_ends new_root b fuel (queue ++ children_of nodes n.id)
                                next step.1
                                (λ c m. elim (Memᴰ.append_cases queue m) [
                                  | inl waiting ↦ low c (Memᴰ.tail waiting)
                                  | inr new ↦
                                      omega (arith, lower n.id c new, low n (Memᴰ.head refl))
                                ])
                                (omega (
                                  arith,
                                  size_step b n (low n (Memᴰ.head refl)),
                                  total-append (copy_size b) queue (children_of nodes n.id),
                                )))
                      ]
                ]
          ]

      -- Where every child is lower than its parent by some measure, as in a tree, a copy ends, with fuel for
      -- the nodes that it makes.
      pub copy_fetched_ends :
          (b fuel : ℕ) (target : Text) (root : WorkflowyNode) (w : W)
          → height root.id ≤ b
          → copy_size b root ≤ fuel
          → (copy_fetched client reads default_deadline ctx fuel transform target nodes root w).0
            ≢ none
      unfolding copy_fetched
      copy_fetched_ends b fuel target root w low enough =
          let text = transform root in
          let made = client.create_node text.0 text.1 (some target) none w in
          elim (Result-cases made.0) [
            | inr (e, failed) ↦ rw (failed, copy_fetched) (λ h. cc h)
            | inl (created, success) ↦
                let start = start_of transform target root created.id in
                let loop =
                  copy_queue client reads default_deadline ctx transform nodes created.id fuel
                    (children_of nodes root.id) start made.1 in
                let ends =
                  copy_queue_ends created.id b fuel (children_of nodes root.id) start made.1
                    (λ c m. omega (arith, lower root.id c m))
                    (omega (arith, size_step b root low)) in
                elim (Option-cases loop.0) [
                  | inl out_of_fuel ↦ absurd (ends out_of_fuel)
                  | inr (r, ended) ↦ elim (Result-cases r) [
                    | inr (e, failed) ↦
                        rw (success, copy_fetched, ended ∙ ap (λ x. some x) failed) (λ h. cc h)
                    | inl (done, finished) ↦
                        rw (success, copy_fetched, ended ∙ ap (λ x. some x) finished) (λ h. cc h)
                  ]
                ]
          ]
