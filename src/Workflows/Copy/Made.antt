-- ===== src/Workflows/Copy/Made.antt =====
-- The requests of a copy (workflows.rs, deep_copy_subtree, after the fetch), and what they create.
use mathlib.Core.List.{Memᴰ, append_assoc, append-nil}
use mathlib.Core.Path.{subst}
use workflowy_mcp.Base.{
  ℕ, zero, suc, ◌+◌, ◌≡◌, refl, sym, ap, ◌∙◌, Bool, Option, none, some, List, [], ◌∷◌, ◌++◌, Text,
  insert, Bool-cases, Option-cases, inl, inr, pair_fst, pair_snd,
}
use workflowy_mcp.Context.{WorkflowContext, is_cancelled, is_past_deadline}
use workflowy_mcp.Error.{Result, ok, Result-cases}
use workflowy_mcp.Types.{WorkflowyNode, CreatedNode}
use workflowy_mcp.Client.{Client}
use workflowy_mcp.Client.Walk.{Reads}
use workflowy_mcp.Workflows.{record_created, invalidate_cache_only}
use workflowy_mcp.Workflows.Creates.{Create, Creates, ended, still, polled, made, both_polled}
use workflowy_mcp.Workflows.Copy.{
  Copying, Copied, children_of, new_parent_of, copy_node, copy_queue, copy_fetched, start_of,
}
use workflowy_mcp.Workflows.Copy.Copied.{
  created_as, IsCopying, IsCopying-start, copy_queue-IsCopying,
}

-- The create that the copy of a node asks for: no priority.
abbrev pub copy_create : {W : Type 0} → Client W → Create W
copy_create client n name description parent w = client.create_node name description parent none w

module _ {W : Type 0} (client : Client W) (reads : Reads W) (default_deadline : W → Bool × W)
    (ctx : WorkflowContext W) (transform : WorkflowyNode → Text × Option Text)
    (nodes : List WorkflowyNode) where
  copy_node_asks :
      (new_root : Text) (node : WorkflowyNode) (now next : Copying) (w : W)
      → (copy_node client reads default_deadline ctx transform nodes new_root node now w).0
        ≡ ok next
      → (let end =
            (copy_node client reads default_deadline ctx transform nodes new_root node now w).1 in
          (created : CreatedNode) × (parent : Text) × (client.create_node
              (transform node).0
              (transform node).1
              (some parent)
              none
              w
            ≡ (ok created, end))
          × (next.footprint.created_nodes
              ≡ now.footprint.created_nodes ++ created_as created.id (transform node) parent ∷ []))
  unfolding copy_node record_created
  copy_node_asks new_root node now next w h =
      let text = transform node in
      let parent = new_parent_of now.id_map new_root node in
      let asked = client.create_node text.0 text.1 (some parent) none w in
      elim (Result-cases asked.0) [
        | inr (e, failed) ↦ cc (rw (failed, copy_node) at h)
        | inl (created, success) ↦
            let after : Copying = record {
              id_map = insert node.id created.id now.id_map;
              created_count = now.created_count + 1;
              footprint = record_created created.id text.0 text.1 (some parent) now.footprint;
            } in
            let same : ok after ≡ ok next = rw (success, copy_node) at h in
            let next_is : after ≡ next = cc same in
            (
              created,
              parent,
              rw (success, copy_node) (cc success),
              ap (λ n. n.footprint.created_nodes) (sym next_is),
            )
      ]

  copy_queue-Creates :
      (n : ℕ) (new_root : Text) (fuel : ℕ) (queue : List WorkflowyNode) (now done : Copying)
      (w w' : W)
      → copy_queue client reads default_deadline ctx transform nodes new_root fuel queue now w
        ≡ (some (ok done), w')
      → (more : List WorkflowyNode) × Creates ctx (copy_create client) n more w w'
        × (done.footprint.created_nodes ≡ now.footprint.created_nodes ++ more)
  unfolding copy_queue
  copy_queue-Creates n new_root fuel [] now done w w' h =
      let same : now ≡ done = cc (pair_fst h) in
      (
        [],
        subst (λ end. Creates ctx (copy_create client) n [] w end) (pair_snd h)
            (ended n w w (still w)),
        ap (λ x. x.footprint.created_nodes) (sym same)
            ∙ sym (append-nil now.footprint.created_nodes),
      )
  copy_queue-Creates n new_root zero (node ∷ queue) now done w w' h = cc (pair_fst h)
  copy_queue-Creates n new_root (suc fuel) (node ∷ queue) now done w w' h =
      let off = is_cancelled ctx w in
      elim (Bool-cases off.0) [
        | inl cancelled ↦ cc (pair_fst (rw (cancelled, copy_queue) at h))
        | inr on ↦
            let late = is_past_deadline ctx off.1 in
            elim (Bool-cases late.0) [
              | inl over ↦ cc (pair_fst (rw (on, copy_queue, over) at h))
              | inr in_time ↦
                  let step =
                    copy_node client reads default_deadline ctx transform nodes new_root node now
                      late.1 in
                  elim (Result-cases step.0) [
                    | inr (e, failed) ↦ cc (pair_fst (rw (on, copy_queue, in_time, failed) at h))
                    | inl (next, success) ↦
                        let (created, parent, asked, nodes_after) =
                          copy_node_asks new_root node now next late.1 success in
                        let (more, rest, all_nodes) =
                          copy_queue-Creates (suc n) new_root fuel
                            (queue ++ children_of nodes node.id) next done step.1 w'
                            (rw (on, copy_queue, in_time, success) at h) in
                        let new = created_as created.id (transform node) parent in
                        (
                          new ∷ more,
                          polled n (new ∷ more) w late.1 w' (both_polled ctx w)
                              (made n new more created late.1 step.1 w' asked refl rest),
                          all_nodes
                              ∙ ap (λ l. l ++ more) nodes_after
                              ∙ append_assoc now.footprint.created_nodes (new ∷ []) more,
                        )
                  ]
            ]
      ]

  module _ (node_of : Text → WorkflowyNode) (target source : Text)
      (pinned : (n : WorkflowyNode) → Memᴰ n nodes → n ≡ node_of n.id) where
    -- What a copy that is made is, with what the loop keeps at its end.
    pub record IsMade (copied : Copied) (w w' : W) : Type 0 where
      pub done : Copying
      pub copying : IsCopying node_of transform target source copied.0 nodes pinned [] done
      pub asked : Creates ctx (copy_create client) 0 copied.2.created_nodes w w'
      pub counted : done.created_count ≡ copied.1
      pub recorded : done.footprint ≡ copied.2

    pub copy_fetched-IsMade :
        (fuel : ℕ) (root : WorkflowyNode) (copied : Copied) (w w' : W)
        → root ≡ node_of source
        → root.id ≡ source
        → copy_fetched client reads default_deadline ctx fuel transform target nodes root w
          ≡ (some (ok copied), w')
        → IsMade copied w w'
    unfolding copy_fetched record_created invalidate_cache_only
    copy_fetched-IsMade fuel root copied w w' is_root at_source h =
        let text = transform root in
        let create = client.create_node text.0 text.1 (some target) none w in
        elim (Result-cases create.0) [
          | inr (e, failed) ↦ cc (pair_fst (rw (failed, copy_fetched) at h))
          | inl (created, success) ↦
              let start = start_of transform target root created.id in
              let loop =
                copy_queue client reads default_deadline ctx transform nodes created.id fuel
                  (children_of nodes root.id) start create.1 in
              let back = rw (success, copy_fetched) at h in
              let answer = pair_fst back in
              elim (Option-cases loop.0) [
                | inl out_of_fuel ↦ cc (rw out_of_fuel at answer)
                | inr (r, finished) ↦ elim (Result-cases r) [
                  | inr (e, failed) ↦ cc (rw (finished ∙ ap (λ x. some x) failed) at answer)
                  | inl (done, success_too) ↦
                      let end = finished ∙ ap (λ x. some x) success_too in
                      let whole : loop ≡ (some (ok done), loop.1) = cc end in
                      let copying =
                        copy_queue-IsCopying node_of transform target source created.id nodes pinned
                          client reads default_deadline ctx fuel (children_of nodes root.id) start
                          done create.1 loop.1 whole
                          (IsCopying-start node_of transform target source created.id nodes pinned
                            root is_root at_source) in
                      let (more, rest, all_nodes) =
                        copy_queue-Creates 1 created.id fuel (children_of nodes root.id) start done
                          create.1 loop.1 whole in
                      let first = created_as created.id text target in
                      let same : ◌≡◌ {A = Option (Result Copied)}
                          (some (ok (created.id, done.created_count, done.footprint)))
                          (some (ok copied)) =
                        rw end at answer in
                      let pair : ◌≡◌ {A = Copied} (created.id, done.created_count, done.footprint)
                          copied =
                        cc same in
                      let asked : Creates ctx (copy_create client) 0 done.footprint.created_nodes w
                          loop.1 =
                        subst (λ l. Creates ctx (copy_create client) 0 l w loop.1) (sym all_nodes)
                          (made 0 first more created w create.1 loop.1 (cc success) refl rest) in
                      let result : IsMade (created.id, done.created_count, done.footprint) w
                          loop.1 =
                        record {
                          done = done;
                          copying = copying;
                          asked = asked;
                          counted = refl;
                          recorded = refl;
                        } in
                      subst (λ u. IsMade copied w u) (pair_snd back)
                        (subst (λ c. IsMade c w loop.1) pair result)
                ]
              ]
        ]
