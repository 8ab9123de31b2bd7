-- ===== src/Workflows/Copy/Whole.antt =====
-- A copy (workflows.rs, deep_copy_subtree) is whole as far as the walk goes down.
use mathlib.Core.List.{Memᴰ}
use mathlib.Core.List.Memᴰ
use mathlib.Core.Path.{subst}
use workflowy_mcp.Base.{
  ℕ, zero, suc, ◌≤◌, ◌≡◌, sym, ap, ◌∙◌, Bool, true, false, Option, some, List, [], ◌∷◌, Text, ascii,
  text_eq, Dict, contains_key, length, find, Bool-cases, Option-cases, inl, inr, arith, pair_fst,
  pair_snd, refl,
}
use workflowy_mcp.Context.{WorkflowContext}
use workflowy_mcp.Error.{ok, Result-cases}
use workflowy_mcp.Types.{WorkflowyNode}
use workflowy_mcp.Client.{Client}
use workflowy_mcp.Client.Walk.{Reads, or_else, get_subtree_with_controls, SubtreeFetch}
use workflowy_mcp.Client.Walk.Drains.{ReadsTree}
use workflowy_mcp.Client.Walk.Levels.{Below}
use workflowy_mcp.Client.Walk.Covers.{get_subtree_with_controls-covers}
use workflowy_mcp.Workflows.{MutationFootprint}
use workflowy_mcp.Workflows.Copy.{
  Copied, DuplicateOutcome, children_of, deep_copy_subtree, duplicate_subtree, max_subtree_nodes,
  prefixed,
}
use workflowy_mcp.Client.Walk.Answered.{get_subtree_with_controls-Every}
use workflowy_mcp.Workflows.Creates.{Creates}
use workflowy_mcp.Workflows.Copy.Made.{copy_create, copy_fetched-IsMade}
use workflowy_mcp.Workflows.Copy.Copied.{created_as, IsCopy, IsCopy-Memᴰ}
use workflowy_mcp.Workflows.Copy.Closed.{found-id, find-Memᴰ, Below-copied}

-- The client's answers and the tree: in the tree every id has its node, which a read answers, and a node that
-- is listed names the parent that it is listed under.
pub record ReadsNodes {W : Type 0} (reads : Reads W) (kids : Text → List WorkflowyNode)
    (node_of : Text → WorkflowyNode) : Type 0 where
  pub named : (id : Text) → (node_of id).id ≡ id
  pub read :
      (id : Text) (w w' : W) (n : WorkflowyNode)
      → reads.get_node_cancellable id w ≡ (ok n, w')
      → n ≡ node_of id
  pub listed_node : (p : Text) (c : WorkflowyNode) → Memᴰ c (kids p) → c ≡ node_of c.id
  pub owned : (p : Text) (c : WorkflowyNode) → Memᴰ c (kids p) → c.parent_id ≡ some p

module _ {W : Type 0} (client : Client W) (reads : Reads W) (default_deadline : W → Bool × W)
    (ctx : WorkflowContext W) (kids : Text → List WorkflowyNode) (node_of : Text → WorkflowyNode)
    (reads_tree : ReadsTree reads kids) (reads_nodes : ReadsNodes reads kids node_of) where
  -- The context of the fetch.
  abbrev pub controls : WorkflowContext W
  controls = record ctx { deadline = or_else ctx.deadline (some default_deadline) }

  -- The world after the fetch.
  abbrev pub after_fetch : Text → ℕ → W → W
  after_fetch source depth w =
      (get_subtree_with_controls reads controls false max_subtree_nodes (some source) depth w).1

  fetched_node :
      (source : Text) (depth : ℕ) (w w' : W) (fetch : SubtreeFetch)
      → get_subtree_with_controls reads controls false max_subtree_nodes (some source) depth w
        ≡ (ok fetch, w')
      → (n : WorkflowyNode) → Memᴰ n fetch.nodes
      → n ≡ node_of n.id
  fetched_node source depth w w' fetch h =
      get_subtree_with_controls-Every (λ n. n ≡ node_of n.id) reads controls false max_subtree_nodes
        (λ id u u' children k c m.
          reads_nodes.listed_node id c (subst (Memᴰ c) (reads_tree.listed id u u' children k) m))
        source depth w w' fetch
        (λ u u' n k.
          let is : n ≡ node_of source = reads_nodes.read source u u' n k in
          is ∙ ap node_of (sym (ap (λ x. x.id) is ∙ reads_nodes.named source)))
        h

  Below-source_copied :
      (source : Text) (depth : ℕ) (nodes : List WorkflowyNode) (copies : Dict Text)
      → ((m : ℕ) (x : WorkflowyNode) → m ≤ depth → Below kids m (kids source) x → Memᴰ x nodes)
      → ((p : Text) (c : WorkflowyNode)
          → contains_key p copies ≡ true
          → Memᴰ c (children_of nodes p)
          → contains_key c.id copies ≡ true)
      → contains_key source copies ≡ true
      → (n : ℕ) (v : WorkflowyNode) → n ≤ suc depth
      → Below kids n (node_of source ∷ []) v
      → contains_key v.id copies ≡ true
  Below-source_copied source depth nodes copies all_there closed rooted zero v few m =
      elim (Memᴰ.cases_cons m) [
        | inl itself ↦
            let id_is : v.id ≡ source = ap (λ x. x.id) itself ∙ reads_nodes.named source in
            subst (λ i. contains_key i copies ≡ true) (sym id_is) rooted
        | inr later ↦ absurd (Memᴰ.not-nil later)
      ]
  Below-source_copied source depth nodes copies all_there closed rooted (suc n) v few
        (u, m, lower) =
      elim (Memᴰ.cases_cons m) [
        | inl itself ↦
            let id_is : u.id ≡ source = ap (λ x. x.id) itself ∙ reads_nodes.named source in
            Below-copied kids source depth nodes copies all_there reads_nodes.owned closed 0 n
              source v (omega arith) rooted (λ x k. k)
              (subst (λ i. Below kids n (kids i) v) id_is lower)
        | inr later ↦ absurd (Memᴰ.not-nil later)
      ]

  -- Where the answers of the client are those of a tree, a copy that is made has asked the client, after the
  -- fetch and between polls of the signals, for one create for each node that it reports, in their order,
  -- with the text and the parent that it reports, each answered with the id that it reports, and for no other
  -- create but one that failed after these. The nodes are the copy of the source under the target, which is
  -- the root that it names, and copies of nodes of the tree, each under the copy of its parent. They are
  -- counted, and among those copied are the source and every node that is at most walk_depth levels below a
  -- child of it.
  pub deep_copy_subtree-IsCopy :
      (fuel : ℕ) (source target : Text) (walk_depth : ℕ) (label found_label : Text)
      (transform : WorkflowyNode → Text × Option Text) (copied : Copied) (w w' : W)
      → deep_copy_subtree client reads default_deadline ctx fuel source target walk_depth label
          found_label transform w
        ≡ (some (ok copied), w')
      → (copies : Dict Text) × IsCopy node_of transform target source copied.0 copies
          copied.2.created_nodes
        × Creates ctx
            (copy_create client)
            0
            copied.2.created_nodes
            (after_fetch source walk_depth w)
            w'
        × (copied.1 ≡ length copied.2.created_nodes)
        × ((n : ℕ) (v : WorkflowyNode)
            → n ≤ suc walk_depth
            → Below kids n (node_of source ∷ []) v
            → contains_key v.id copies ≡ true)
  unfolding deep_copy_subtree
  deep_copy_subtree-IsCopy fuel source target walk_depth label found_label transform copied w w' h =
      let fetched =
        get_subtree_with_controls reads controls false max_subtree_nodes (some source) walk_depth
          w in
      elim (Result-cases fetched.0) [
        | inr (e, failed) ↦ cc (pair_fst (rw (failed, deep_copy_subtree) at h))
        | inl (fetch, got) ↦ elim (Bool-cases fetch.truncated) [
          | inl cut ↦ cc (pair_fst (rw (got, deep_copy_subtree, cut) at h))
          | inr whole ↦ elim (Option-cases (find (λ x. text_eq x.id source) fetch.nodes)) [
            | inl missing ↦ cc (pair_fst (rw (got, deep_copy_subtree, whole, missing) at h))
            | inr (root, there) ↦
                let answer : fetched ≡ (ok fetch, fetched.1) = cc got in
                let pinned = fetched_node source walk_depth w fetched.1 fetch answer in
                let at_source = found-id source fetch.nodes root there in
                let is_root : root ≡ node_of source =
                  pinned root (find-Memᴰ source fetch.nodes root there) ∙ ap node_of at_source in
                let run =
                  copy_fetched-IsMade client reads default_deadline ctx transform fetch.nodes
                    node_of target source pinned fuel root copied fetched.1 w' is_root at_source
                    (rw (got, deep_copy_subtree, whole, there) at h) in
                let all_there =
                  λ (m : ℕ) (x : WorkflowyNode) (k : m ≤ walk_depth)
                      (b : Below kids m (kids source) x).
                    get_subtree_with_controls-covers reads controls false max_subtree_nodes kids
                      reads_tree source m walk_depth x w fetched.1 fetch answer whole k b in
                (
                  run.done.id_map,
                  subst
                      (λ f.
                        IsCopy node_of transform target source copied.0 run.done.id_map
                          f.created_nodes)
                      run.recorded run.copying.copy,
                  run.asked,
                  sym run.counted
                      ∙ run.copying.counted
                      ∙ ap (λ f. length f.created_nodes) run.recorded,
                  Below-source_copied source walk_depth fetch.nodes run.done.id_map all_there
                      (λ p c at_p m. elim (run.copying.closed p c at_p m) [
                        | inl waiting ↦ absurd (Memᴰ.not-nil waiting)
                        | inr done_already ↦ done_already
                      ])
                      run.copying.rooted,
                )
          ]
        ]
      ]

  -- duplicate_subtree copies the children of the source even when it is asked not to. Where the answers of
  -- the client are those of a tree, a duplicate that is made with include_children false has asked for one
  -- answered create for each node that it reports and counts, with its text and its parent; these are a copy
  -- of the source and of nodes below it, and every child of the source has its copy among them, with its name
  -- and description as the prefix for the source leaves them.
  pub duplicate_subtree-has_children :
      (fuel : ℕ) (source target : Text) (name_prefix : Option Text) (outcome : DuplicateOutcome)
      (footprint : MutationFootprint) (w w' : W) (child : WorkflowyNode)
      → duplicate_subtree client reads default_deadline ctx fuel source target false name_prefix w
        ≡ (some (ok (outcome, footprint)), w')
      → Memᴰ child (kids source)
      → (let transform = prefixed client reads default_deadline ctx source name_prefix in
          (copies : Dict Text) × IsCopy node_of transform target source outcome.new_root_id copies
            footprint.created_nodes
          × Creates ctx (copy_create client) 0 footprint.created_nodes (after_fetch source 0 w) w'
          × (outcome.nodes_created ≡ length footprint.created_nodes)
          × (id parent : Text) × Memᴰ
              (created_as id (transform child) parent)
              footprint.created_nodes)
  unfolding duplicate_subtree
  duplicate_subtree-has_children fuel source target name_prefix outcome footprint w w' child h
        there =
      let transform = prefixed client reads default_deadline ctx source name_prefix in
      let run =
        deep_copy_subtree client reads default_deadline ctx fuel source target 0 (ascii "duplicate")
          (ascii "Node") transform w in
      elim (Option-cases run.0) [
        | inl out_of_fuel ↦ cc (pair_fst (rw (out_of_fuel, duplicate_subtree) at h))
        | inr (r, ended) ↦ elim (Result-cases r) [
          | inr (e, failed) ↦
              cc (pair_fst (rw (ended ∙ ap (λ x. some x) failed, duplicate_subtree) at h))
          | inl (copied, finished) ↦
              let done = ended ∙ ap (λ x. some x) finished in
              let answer : run ≡ (some (ok copied), run.1) = cc done in
              let back = rw (done, duplicate_subtree) at h in
              let made : DuplicateOutcome = record {
                original_id = source;
                new_root_id = copied.0;
                nodes_created = copied.1;
              } in
              let same : ◌≡◌ {A = DuplicateOutcome × MutationFootprint} (made, copied.2)
                  (outcome, footprint) =
                cc (pair_fst back) in
              let (copies, copy, asked, counted, all_copied) =
                deep_copy_subtree-IsCopy fuel source target 0 (ascii "duplicate") (ascii "Node")
                  transform copied w run.1 answer in
              let below : Below kids 1 (node_of source ∷ []) child = (
                node_of source,
                Memᴰ.head refl,
                subst (λ i. Memᴰ child (kids i)) (sym (reads_nodes.named source)) there,
              ) in
              let (id, parent, m) =
                IsCopy-Memᴰ node_of transform target source copied.0 copies copied.2.created_nodes
                  child.id reads_nodes.named copy (all_copied 1 child (omega arith) below) in
              let m' : Memᴰ (created_as id (transform child) parent) copied.2.created_nodes =
                subst (λ x. Memᴰ (created_as id (transform x) parent) copied.2.created_nodes)
                  (sym (reads_nodes.listed_node source child there)) m in
              subst
                (λ o.
                  (copies : Dict Text) × IsCopy node_of transform target source o.0.new_root_id
                    copies o.1.created_nodes
                  × Creates ctx (copy_create client) 0 o.1.created_nodes (after_fetch source 0 w) w'
                  × (o.0.nodes_created ≡ length o.1.created_nodes)
                  × (id parent : Text) × Memᴰ (created_as id (transform child) parent)
                      o.1.created_nodes)
                same
                (
                  copies,
                  copy,
                  subst
                      (λ u.
                        Creates ctx (copy_create client) 0 copied.2.created_nodes
                          (after_fetch source 0 w) u)
                      (pair_snd back) asked,
                  counted,
                  id,
                  parent,
                  m',
                )
        ]
      ]
