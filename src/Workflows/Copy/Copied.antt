-- ===== src/Workflows/Copy/Copied.antt =====
-- What deep_copy_subtree (workflows.rs) creates.
use mathlib.Core.List.{Memᴰ}
use mathlib.Core.List.Memᴰ
use mathlib.Core.Path.{subst}
use workflowy_mcp.Base.{
  ℕ, zero, suc, ◌+◌, ◌≡◌, ◌⊎◌, refl, sym, ap, ◌∙◌, Bool, true, Option, none, some, List, [], ◌∷◌,
  ◌++◌, Text, text_eq, text_eq_iff, text_eq_refl, Dict, lookup, lookup-insert, insert, contains_key,
  length, length-append, Bool-cases, Option-cases, inl, inr, arith, pair_fst,
}
use workflowy_mcp.Context.{WorkflowContext, is_cancelled, is_past_deadline}
use workflowy_mcp.Error.{ok, Result-cases}
use workflowy_mcp.Types.{WorkflowyNode, default_node}
use workflowy_mcp.Client.{Client}
use workflowy_mcp.Client.Walk.{Reads}
use workflowy_mcp.Workflows.{invalidate_cache_only, record_created}
use workflowy_mcp.Workflows.Copy.{
  Copying, children_of, new_parent_of, copy_node, copy_queue, start_of,
}

-- The node that a create made, with what it was asked for.
abbrev pub created_as : Text → Text × Option Text → Text → WorkflowyNode
created_as id text parent = record default_node {
  id = id;
  name = text.0;
  description = text.1;
  parent_id = some parent;
}

-- The created nodes are a copy of nodes of the tree, in which an id has its node: first the source, as the
-- new root under the target, then nodes of which each stands under the copy of its parent. The map leads
-- from each copied id to its copy.
pub data IsCopy (node_of : Text → WorkflowyNode) (transform : WorkflowyNode → Text × Option Text)
    (target source new_root : Text) : Dict Text → List WorkflowyNode → Type 0 where
  copied_root :
      (root : WorkflowyNode)
      → root ≡ node_of source
      → IsCopy node_of transform target source new_root
          (insert root.id new_root [])
          (created_as new_root (transform root) target ∷ [])
  copied_child :
      (copies : Dict Text) (created : List WorkflowyNode) (node : WorkflowyNode)
      (pid parent id : Text)
      → IsCopy node_of transform target source new_root copies created
      → node ≡ node_of node.id
      → node.parent_id ≡ some pid
      → lookup pid copies ≡ some parent
      → IsCopy node_of transform target source new_root
          (insert node.id id copies)
          (created ++ created_as id (transform node) parent ∷ [])

-- Each id in the map has its copy among the created nodes.
pub IsCopy-Memᴰ :
    (node_of : Text → WorkflowyNode) (transform : WorkflowyNode → Text × Option Text)
    (target source new_root : Text) (copies : Dict Text) (created : List WorkflowyNode) (k : Text)
    → ((id : Text) → (node_of id).id ≡ id)
    → IsCopy node_of transform target source new_root copies created
    → contains_key k copies ≡ true
    → (id parent : Text) × Memᴰ (created_as id (transform (node_of k)) parent) created
unfolding contains_key lookup
IsCopy-Memᴰ node_of transform target source new_root _ _ k named (copied_root root at_source) h =
    let found : text_eq root.id k ≡ true = ground (arith, h, lookup-insert root.id k new_root []) in
    let equal : root.id ≡ k = ground (arith, found, text_eq_iff root.id k) in
    let id_is : root.id ≡ source = ap (λ x. x.id) at_source ∙ named source in
    let same : root ≡ node_of k = at_source ∙ ap node_of (sym id_is ∙ equal) in
    (new_root, target, Memᴰ.head (ap (λ x. created_as new_root (transform x) target) (sym same)))
IsCopy-Memᴰ node_of transform target source new_root _ _ k named
      (copied_child copies created node pid parent id rest pinned at_pid found) h =
    elim (Bool-cases (text_eq node.id k)) [
      | inl here ↦
          let equal : node.id ≡ k = ground (arith, here, text_eq_iff node.id k) in
          let same : node ≡ node_of k = pinned ∙ ap node_of equal in
          (
            id,
            parent,
            Memᴰ.append_right created
                (Memᴰ.head (ap (λ x. created_as id (transform x) parent) (sym same))),
          )
      | inr other ↦
          let before : contains_key k copies ≡ true =
            ground (arith, h, other, lookup-insert node.id k id copies) in
          let (i, q, m) =
            IsCopy-Memᴰ node_of transform target source new_root copies created k named rest
              before in
          (i, q, Memᴰ.append_left _ m)
    ]

parent-children_of :
    (nodes : List WorkflowyNode) (pid : Text) (c : WorkflowyNode)
    → Memᴰ c (children_of nodes pid)
    → c.parent_id ≡ some pid
unfolding children_of
parent-children_of [] pid c m = absurd (Memᴰ.not-nil m)
parent-children_of (n ∷ nodes) pid c m = elim (Option-cases n.parent_id) [
  | inl top ↦ parent-children_of nodes pid c (rw (top, children_of) at m)
  | inr (q, e) ↦ elim (Bool-cases (text_eq q pid)) [
    | inr other ↦ parent-children_of nodes pid c (rw (e, children_of, other) at m)
    | inl same ↦ elim (Memᴰ.cases_cons (rw (e, children_of, same) at m)) [
      | inr later ↦ parent-children_of nodes pid c later
      | inl here ↦
          let equal : q ≡ pid = ground (arith, same, text_eq_iff q pid) in
          ap (λ x. x.parent_id) here ∙ e ∙ ap (λ t. some t) equal
    ]
  ]
]

-- A child is one of the nodes.
children_of-Memᴰ :
    (nodes : List WorkflowyNode) (pid : Text) (c : WorkflowyNode)
    → Memᴰ c (children_of nodes pid)
    → Memᴰ c nodes
unfolding children_of
children_of-Memᴰ [] pid c m = m
children_of-Memᴰ (n ∷ nodes) pid c m = elim (Option-cases n.parent_id) [
  | inl top ↦ Memᴰ.tail (children_of-Memᴰ nodes pid c (rw (top, children_of) at m))
  | inr (q, e) ↦ elim (Bool-cases (text_eq q pid)) [
    | inr other ↦ Memᴰ.tail (children_of-Memᴰ nodes pid c (rw (e, children_of, other) at m))
    | inl same ↦ elim (Memᴰ.cases_cons (rw (e, children_of, same) at m)) [
      | inl here ↦ Memᴰ.head here
      | inr later ↦ Memᴰ.tail (children_of-Memᴰ nodes pid c later)
    ]
  ]
]

pub Memᴰ-children_of :
    (nodes : List WorkflowyNode) (pid : Text) (c : WorkflowyNode)
    → Memᴰ c nodes
    → c.parent_id ≡ some pid
    → Memᴰ c (children_of nodes pid)
unfolding children_of
Memᴰ-children_of [] pid c m h = absurd (Memᴰ.not-nil m)
Memᴰ-children_of (n ∷ nodes) pid c m h = elim (Memᴰ.cases_cons m) [
  | inl here ↦
      let e : n.parent_id ≡ some pid = ap (λ x. x.parent_id) (sym here) ∙ h in
      rw (e, children_of, text_eq_refl pid) (Memᴰ.head here)
  | inr later ↦
      let rest = Memᴰ-children_of nodes pid c later h in
      elim (Option-cases n.parent_id) [
        | inl top ↦ rw (top, children_of) rest
        | inr (q, e) ↦ elim (Bool-cases (text_eq q pid)) [
          | inr other ↦ rw (e, children_of, other) rest
          | inl same ↦ rw (e, children_of, same) (Memᴰ.tail rest)
        ]
      ]
]

module _ (node_of : Text → WorkflowyNode) (transform : WorkflowyNode → Text × Option Text)
    (target source new_root : Text) (nodes : List WorkflowyNode)
    (pinned : (n : WorkflowyNode) → Memᴰ n nodes → n ≡ node_of n.id) where
  -- What the loop keeps: the queue has children of copied nodes, and all that are not copied yet.
  pub record IsCopying (queue : List WorkflowyNode) (now : Copying) : Type 0 where
    pub copy :
        IsCopy node_of transform target source new_root now.id_map now.footprint.created_nodes
    pub counted : now.created_count ≡ length now.footprint.created_nodes
    pub rooted : contains_key source now.id_map ≡ true
    pub queued :
        (n : WorkflowyNode)
        → Memᴰ n queue
        → (pid parent : Text) × (n.parent_id ≡ some pid)
          × (lookup pid now.id_map ≡ some parent)
          × (n ≡ node_of n.id)
    pub closed :
        (p : Text) (c : WorkflowyNode)
        → contains_key p now.id_map ≡ true
        → Memᴰ c (children_of nodes p)
        → Memᴰ c queue ⊎ (contains_key c.id now.id_map ≡ true)

  abbrev next_of : WorkflowyNode → Text → Text → Copying → Copying
  next_of node id parent now = record {
    id_map = insert node.id id now.id_map;
    created_count = now.created_count + 1;
    footprint = record_created id (transform node).0 (transform node).1 (some parent) now.footprint;
  }

  IsCopying-next :
      (node : WorkflowyNode) (rest : List WorkflowyNode) (id pid parent : Text) (now : Copying)
      → node ≡ node_of node.id
      → node.parent_id ≡ some pid
      → lookup pid now.id_map ≡ some parent
      → IsCopying (node ∷ rest) now
      → IsCopying (rest ++ children_of nodes node.id) (next_of node id parent now)
  unfolding record_created contains_key
  IsCopying-next node rest id pid parent now is_node at_pid found h = record {
    copy =
        copied_child now.id_map now.footprint.created_nodes node pid parent id h.copy is_node at_pid
          found;
    counted = omega (
      arith,
      h.counted,
      length-append now.footprint.created_nodes (created_as id (transform node) parent ∷ []),
    );
    rooted = ground (arith, h.rooted, lookup-insert node.id source id now.id_map);
    queued = λ n m. elim (Memᴰ.append_cases rest m) [
      | inl waiting ↦
          let (q, old, e, there, is_n) = h.queued n (Memᴰ.tail waiting) in
          elim (Bool-cases (text_eq node.id q)) [
            | inl same ↦ (q, id, e, lookup-insert node.id q id now.id_map ∙ rw same, is_n)
            | inr other ↦ (q, old, e, lookup-insert node.id q id now.id_map ∙ rw other there, is_n)
          ]
      | inr new ↦ (
        node.id,
        id,
        parent-children_of nodes node.id n new,
        lookup-insert node.id node.id id now.id_map ∙ rw (text_eq_refl node.id),
        pinned n (children_of-Memᴰ nodes node.id n new),
      )
    ];
    closed = λ p c at_p m. elim (Bool-cases (text_eq node.id p)) [
      | inl same ↦
          let equal : node.id ≡ p = ground (arith, same, text_eq_iff node.id p) in
          inl (Memᴰ.append_right rest (subst (λ q. Memᴰ c (children_of nodes q)) (sym equal) m))
      | inr other ↦
          let before : contains_key p now.id_map ≡ true =
            ground (arith, at_p, other, lookup-insert node.id p id now.id_map) in
          elim (h.closed p c before m) [
            | inr done ↦ inr (ground (arith, done, lookup-insert node.id c.id id now.id_map))
            | inl waiting ↦ elim (Memᴰ.cases_cons waiting) [
              | inr later ↦ inl (Memᴰ.append_left (children_of nodes node.id) later)
              | inl here ↦ inr (
                  ground (
                    arith,
                    ap (λ x. x.id) here,
                    lookup-insert node.id c.id id now.id_map,
                    text_eq_iff node.id c.id,
                  ))
            ]
          ]
    ];
  }

  module _ {W : Type 0} (client : Client W) (reads : Reads W) (default_deadline : W → Bool × W)
      (ctx : WorkflowContext W) where
    new_parent_is :
        (id_map : Dict Text) (node : WorkflowyNode) (pid parent : Text)
        → node.parent_id ≡ some pid
        → lookup pid id_map ≡ some parent
        → new_parent_of id_map new_root node ≡ parent
    unfolding new_parent_of
    new_parent_is id_map node pid parent h found = rw (h, new_parent_of, found)

    copy_node_is :
        (node : WorkflowyNode) (pid parent : Text) (now next : Copying) (w : W)
        → node.parent_id ≡ some pid
        → lookup pid now.id_map ≡ some parent
        → (copy_node client reads default_deadline ctx transform nodes new_root node now w).0
          ≡ ok next
        → (id : Text) × (next_of node id parent now ≡ next)
    unfolding copy_node
    copy_node_is node pid parent now next w at_pid found h =
        let text = transform node in
        let place = new_parent_of now.id_map new_root node in
        let at_parent = new_parent_is now.id_map node pid parent at_pid found in
        let made = client.create_node text.0 text.1 (some place) none w in
        elim (Result-cases made.0) [
          | inr (e, failed) ↦ cc (rw (failed, copy_node) at h)
          | inl (created, done) ↦
              let same : ok (next_of node created.id place now) ≡ ok next =
                rw (done, copy_node) at h in
              let found_next : next_of node created.id place now ≡ next = cc same in
              (created.id, ap (λ p. next_of node created.id p now) (sym at_parent) ∙ found_next)
        ]

    pub copy_queue-IsCopying :
        (fuel : ℕ) (queue : List WorkflowyNode) (now done : Copying) (w w' : W)
        → copy_queue client reads default_deadline ctx transform nodes new_root fuel queue now w
          ≡ (some (ok done), w')
        → IsCopying queue now
        → IsCopying [] done
    unfolding copy_queue
    copy_queue-IsCopying fuel [] now done w w' h c =
        let same : now ≡ done = cc (pair_fst h) in subst (IsCopying []) same c
    copy_queue-IsCopying zero (node ∷ queue) now done w w' h c = cc (pair_fst h)
    copy_queue-IsCopying (suc fuel) (node ∷ queue) now done w w' h c =
        let off = is_cancelled ctx w in
        elim (Bool-cases off.0) [
          | inl cancelled ↦ cc (pair_fst (rw (cancelled, copy_queue) at h))
          | inr on ↦
              let late = is_past_deadline ctx off.1 in
              elim (Bool-cases late.0) [
                | inl over ↦ cc (pair_fst (rw (on, copy_queue, over) at h))
                | inr in_time ↦
                    let step =
                      copy_node client reads default_deadline ctx transform nodes new_root node now
                        late.1 in
                    elim (Result-cases step.0) [
                      | inr (e, failed) ↦ cc (pair_fst (rw (on, copy_queue, in_time, failed) at h))
                      | inl (next, made) ↦
                          let (pid, parent, at_pid, found, is_node) =
                            c.queued node (Memᴰ.head refl) in
                          let (id, same) =
                            copy_node_is node pid parent now next late.1 at_pid found made in
                          copy_queue-IsCopying fuel (queue ++ children_of nodes node.id) next done
                            step.1 w' (rw (on, copy_queue, in_time, made) at h)
                            (subst (IsCopying (queue ++ children_of nodes node.id)) same
                              (IsCopying-next node queue id pid parent now is_node at_pid found c))
                    ]
              ]
        ]

  pub IsCopying-start :
      (root : WorkflowyNode)
      → root ≡ node_of source
      → root.id ≡ source
      → IsCopying (children_of nodes root.id) (start_of transform target root new_root)
  unfolding record_created invalidate_cache_only contains_key lookup
  IsCopying-start root is_root at_source = record {
    copy = copied_root root is_root;
    counted = refl;
    rooted = ground (arith, lookup-insert root.id source new_root [], text_eq_iff root.id source);
    queued = λ n m. (
      root.id,
      new_root,
      parent-children_of nodes root.id n m,
      lookup-insert root.id root.id new_root [] ∙ rw (text_eq_refl root.id),
      pinned n (children_of-Memᴰ nodes root.id n m),
    );
    closed = λ p c at_p m.
        let equal : root.id ≡ p =
          ground (arith, at_p, lookup-insert root.id p new_root [], text_eq_iff root.id p) in
        inl (subst (λ q. Memᴰ c (children_of nodes q)) (sym equal) m);
  }
