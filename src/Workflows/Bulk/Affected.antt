-- ===== src/Workflows/Bulk/Affected.antt =====
-- What apply_bulk_op (workflows.rs) reports.
use mathlib.Core.List.{append_assoc, append-nil}
use mathlib.Core.Path.{subst}
use workflowy_mcp.Base.{
  ℕ, ◌+◌, ◌≡◌, refl, sym, ap, ◌∙◌, Option, none, some, List, [], ◌∷◌, ◌++◌, Text, length, arith,
  Bool-cases, Option-cases, true, false, inl, inr, pair_fst, pair_snd,
}
use workflowy_mcp.Error.{WorkflowyError, ok, err, Io, Result-cases}
use workflowy_mcp.Types.{WorkflowyNode}
use workflowy_mcp.Client.{Client}
use workflowy_mcp.Workflows.{
  MutationFootprint, new_footprint, invalidate_node, invalidate_parent, invalidate_cache_only,
}
use workflowy_mcp.Workflows.Bulk.{
  BulkOp, delete, complete, uncomplete, add_tag, remove_tag, is_ok_of, requires_tag, BulkOpResult,
  apply_to_node, apply_to_nodes, apply_bulk_op, is_missing_tag,
}

names-invalidated :
    (id : Text) (parent : Option Text) (fp : MutationFootprint)
    → (invalidate_parent parent (invalidate_node id fp)).invalidated_name_index
      ≡ fp.invalidated_name_index ++ id ∷ []
unfolding invalidate_node invalidate_parent invalidate_cache_only
names-invalidated id none fp = refl
names-invalidated id (some pid) fp = refl

module _ {W : Type 0} (client : Client W) (add_tag_to_name : Text → Text → Option Text)
    (strip_tag : Option Text → Text → Text) where
  -- The request that the operation makes of a node; none to add a tag that the name has.
  abbrev pub request : BulkOp → Option Text → WorkflowyNode → Option (Io W (Unit {0}))
  request delete tag node = some (client.delete_node node.id)
  request complete tag node = some (client.set_completion node.id true)
  request uncomplete tag node = some (client.set_completion node.id false)
  request add_tag none node = none
  request add_tag (some tag) node = elim (add_tag_to_name node.name tag) [
    | none ↦ none
    | some tagged ↦ some (client.edit_node node.id (some tagged) none)
  ]
  request remove_tag tag node =
      some (client.edit_node node.id (some (strip_tag tag node.name)) none)

  -- The run over the nodes, in their order, with the ids of those that it reports: the nodes whose request
  -- succeeded, and those that needed none.
  pub data Applied (op : BulkOp) (tag : Option Text)
      : List WorkflowyNode → W → List Text → W → Type 0 where
    ended : (w : W) → Applied op tag [] w [] w
    changed :
        (node : WorkflowyNode) (nodes : List WorkflowyNode) (ids : List Text)
        (call : Io W (Unit {0})) (w w' end : W)
        → request op tag node ≡ some call
        → call w ≡ (ok tt, w')
        → Applied op tag nodes w' ids end
        → Applied op tag (node ∷ nodes) w (node.id ∷ ids) end
    needless :
        (node : WorkflowyNode) (nodes : List WorkflowyNode) (ids : List Text) (w end : W)
        → request op tag node ≡ none
        → Applied op tag nodes w ids end
        → Applied op tag (node ∷ nodes) w (node.id ∷ ids) end
    refused :
        (node : WorkflowyNode) (nodes : List WorkflowyNode) (ids : List Text)
        (call : Io W (Unit {0})) (e : WorkflowyError) (w w' end : W)
        → request op tag node ≡ some call
        → call w ≡ (err e, w')
        → Applied op tag nodes w' ids end
        → Applied op tag (node ∷ nodes) w ids end

  -- The result counts the nodes and the ids, which are those that the run reports, and the names that the
  -- index is to forget are those ids.
  abbrev pub IsReported :
      BulkOp → Option Text → List WorkflowyNode → W → BulkOpResult × MutationFootprint → W → Type 0
  IsReported op tag nodes w (result, fp) end =
      (result.matched_count ≡ length nodes)
      × (result.affected_count ≡ length result.affected_ids)
      × (fp.invalidated_name_index ≡ result.affected_ids)
      × Applied op tag nodes w result.affected_ids end

  requested :
      (op : BulkOp) (tag : Option Text) (node : WorkflowyNode) (call : Io W (Unit {0})) (w : W)
      → request op tag node ≡ some call
      → apply_to_node client add_tag_to_name strip_tag op tag node w ≡ is_ok_of call w
  unfolding apply_to_node
  requested delete tag node call w h =
      let same : client.delete_node node.id ≡ call = cc h in ap (λ c. is_ok_of c w) same
  requested complete tag node call w h =
      let same : client.set_completion node.id true ≡ call = cc h in ap (λ c. is_ok_of c w) same
  requested uncomplete tag node call w h =
      let same : client.set_completion node.id false ≡ call = cc h in ap (λ c. is_ok_of c w) same
  requested add_tag none node call w h = cc h
  requested add_tag (some t) node call w h = elim (Option-cases (add_tag_to_name node.name t)) [
    | inl e ↦ cc (rw (e, request) at h)
    | inr (tagged, e) ↦
        let same : client.edit_node node.id (some tagged) none ≡ call = cc (rw (e, request) at h) in
        rw (e, apply_to_node) (ap (λ c. is_ok_of c w) same)
  ]
  requested remove_tag tag node call w h =
      let same : client.edit_node node.id (some (strip_tag tag node.name)) none ≡ call = cc h in
      ap (λ c. is_ok_of c w) same

  unrequested :
      (op : BulkOp) (tag : Option Text) (node : WorkflowyNode) (w : W)
      → is_missing_tag op tag ≡ false
      → request op tag node ≡ none
      → apply_to_node client add_tag_to_name strip_tag op tag node w ≡ (true, w)
  unfolding apply_to_node is_missing_tag requires_tag
  unrequested delete tag node w given h = cc h
  unrequested complete tag node w given h = cc h
  unrequested uncomplete tag node w given h = cc h
  unrequested add_tag none node w given h = cc given
  unrequested add_tag (some t) node w given h = elim (Option-cases (add_tag_to_name node.name t)) [
    | inl e ↦ rw (e, apply_to_node)
    | inr (tagged, e) ↦ cc (rw (e, request) at h)
  ]
  unrequested remove_tag tag node w given h = cc h

  succeeds :
      (op : BulkOp) (tag : Option Text) (node : WorkflowyNode) (call : Io W (Unit {0})) (w : W)
      (u : Unit {0})
      → request op tag node ≡ some call
      → (call w).0 ≡ ok u
      → apply_to_node client add_tag_to_name strip_tag op tag node w ≡ (true, (call w).1)
  unfolding is_ok_of
  succeeds op tag node call w u asked h = requested op tag node call w asked ∙ rw (h, is_ok_of)

  fails :
      (op : BulkOp) (tag : Option Text) (node : WorkflowyNode) (call : Io W (Unit {0})) (w : W)
      (e : WorkflowyError)
      → request op tag node ≡ some call
      → (call w).0 ≡ err e
      → apply_to_node client add_tag_to_name strip_tag op tag node w ≡ (false, (call w).1)
  unfolding is_ok_of
  fails op tag node call w e asked h = requested op tag node call w asked ∙ rw (h, is_ok_of)

  -- What the loop adds to the ids and to the footprint.
  abbrev Adds :
      BulkOp
      → Option Text
      → List WorkflowyNode
      → ℕ
      → List Text
      → MutationFootprint
      → W
      → (ℕ × List Text × MutationFootprint) × W
      → Type 0
  Adds op tag nodes n ids fp w run =
      (more : List Text) × Applied op tag nodes w more run.1
      × (run.0.0 ≡ n + length more)
      × (run.0.1 ≡ ids ++ more)
      × (run.0.2.invalidated_name_index ≡ fp.invalidated_name_index ++ more)

  Adds-reported :
      (op : BulkOp) (tag : Option Text) (node : WorkflowyNode) (nodes : List WorkflowyNode) (n : ℕ)
      (ids : List Text) (fp : MutationFootprint) (w w' : W)
      (run : (ℕ × List Text × MutationFootprint) × W)
      → ((more : List Text)
          → Applied op tag nodes w' more run.1
          → Applied op tag (node ∷ nodes) w (node.id ∷ more) run.1)
      → Adds op tag nodes
          (n + 1)
          (ids ++ node.id ∷ [])
          (invalidate_parent node.parent_id (invalidate_node node.id fp))
          w'
          run
      → Adds op tag (node ∷ nodes) n ids fp w run
  Adds-reported op tag node nodes n ids fp w w' run step (more, applied, count, all_ids, names) = (
    node.id ∷ more,
    step more applied,
    omega (arith, count),
    all_ids ∙ append_assoc ids (node.id ∷ []) more,
    names
        ∙ ap (λ l. l ++ more) (names-invalidated node.id node.parent_id fp)
        ∙ append_assoc fp.invalidated_name_index (node.id ∷ []) more,
  )

  apply_to_nodes-Adds :
      (op : BulkOp) (tag : Option Text) (nodes : List WorkflowyNode) (n : ℕ) (ids : List Text)
      (fp : MutationFootprint) (w : W)
      → is_missing_tag op tag ≡ false
      → Adds op tag nodes n ids fp w
          (apply_to_nodes client add_tag_to_name strip_tag op tag nodes n ids fp w)
  unfolding apply_to_nodes
  apply_to_nodes-Adds op tag [] n ids fp w given =
      ([], ended w, omega arith, sym (append-nil ids), sym (append-nil fp.invalidated_name_index))
  apply_to_nodes-Adds op tag (node ∷ nodes) n ids fp w given =
      let fp' = invalidate_parent node.parent_id (invalidate_node node.id fp) in
      let rest = λ (u : W).
        apply_to_nodes client add_tag_to_name strip_tag op tag nodes (n + 1) (ids ++ node.id ∷ [])
          fp' u in
      elim (Option-cases (request op tag node)) [
        | inl none_needed ↦
            let skipped = unrequested op tag node w given none_needed in
            rw (pair_fst skipped, apply_to_nodes, pair_snd skipped)
              (Adds-reported op tag node nodes n ids fp w w (rest w)
                (λ more applied. needless node nodes more w _ none_needed applied)
                (apply_to_nodes-Adds op tag nodes (n + 1) (ids ++ node.id ∷ []) fp' w given))
        | inr (call, asked) ↦
            let w' = (call w).1 in
            elim (Result-cases (call w).0) [
              | inl (done, success) ↦
                  let step = succeeds op tag node call w done asked success in
                  rw (pair_fst step, apply_to_nodes, pair_snd step)
                    (Adds-reported op tag node nodes n ids fp w w' (rest w')
                      (λ more applied.
                        changed node nodes more call w w' _ asked (cc success) applied)
                      (apply_to_nodes-Adds op tag nodes (n + 1) (ids ++ node.id ∷ []) fp' w' given))
              | inr (e, failure) ↦
                  let (more, applied, count, all_ids, names) =
                    apply_to_nodes-Adds op tag nodes n ids fp w' given in
                  let step = fails op tag node call w e asked failure in
                  rw (pair_fst step, apply_to_nodes, pair_snd step)
                    (
                      more,
                      refused node nodes more call e w w' _ asked (cc failure) applied,
                      count,
                      all_ids,
                      names,
                    )
            ]
      ]

  -- Whatever the client answers, a bulk operation that is not refused makes its request of each node, in
  -- their order. It reports how many nodes it was given and how many it names; it names, in their order,
  -- exactly the nodes whose request succeeded and those that needed none since the name has the tag to
  -- add; and it has exactly these names forgotten by the index.
  pub apply_bulk_op-IsReported :
      (op : BulkOp) (nodes : List WorkflowyNode) (tag : Option Text) (w w' : W)
      (result : BulkOpResult) (fp : MutationFootprint)
      → apply_bulk_op client add_tag_to_name strip_tag op nodes tag w ≡ (ok (result, fp), w')
      → IsReported op tag nodes w (result, fp) w'
  unfolding apply_bulk_op
  apply_bulk_op-IsReported op nodes tag w w' result fp h =
      elim (Bool-cases (is_missing_tag op tag)) [
        | inl missing ↦ cc (pair_fst (rw (missing, apply_bulk_op) at h))
        | inr given ↦
            let run =
              apply_to_nodes client add_tag_to_name strip_tag op tag nodes 0 [] new_footprint w in
            let (more, applied, count, all_ids, names) =
              apply_to_nodes-Adds op tag nodes 0 [] new_footprint w given in
            let back = rw (given, apply_bulk_op) at h in
            let reported : BulkOpResult = record {
              matched_count = length nodes;
              affected_count = run.0.0;
              affected_ids = run.0.1;
            } in
            let made : ◌≡◌ {A = BulkOpResult × MutationFootprint} (reported, run.0.2) (result, fp) =
              cc (pair_fst back) in
            subst (λ end. IsReported op tag nodes w (result, fp) end) (pair_snd back)
              (subst (λ r. IsReported op tag nodes w r run.1) made
                (
                  refl,
                  omega (arith, count, ap (length {A = Text}) all_ids),
                  names ∙ sym all_ids,
                  subst (λ l. Applied op tag nodes w l run.1) (sym all_ids) applied,
                ))
      ]
