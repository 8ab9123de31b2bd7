-- ===== src/Workflows/Copy.antt =====
-- deep_copy_subtree, duplicate_subtree and instantiate_template (workflows.rs). The substitution of the
-- template variables rests on a regular-expression library and is a parameter, as is the deadline that a
-- walk has when the context has none.
pub mod Copied
pub mod Closed
pub mod Made
pub mod Whole
pub mod Ends
use workflowy_mcp.Base.{
  ℕ, zero, suc, ◌+◌, Bool, true, false, Option, none, some, List, [], ◌∷◌, ◌++◌, Text, ascii,
  text_eq, decimal, Dict, lookup, insert, filter, find, length, map, sort_by, if◌then◌else◌,
}
use workflowy_mcp.Context.{WorkflowContext, is_cancelled, is_past_deadline}
use workflowy_mcp.Error.{
  WorkflowyError, invalid_input, internal, Result, ok, err, Io, ◌>>=◌, pure, raise, require,
}
use workflowy_mcp.Types.{WorkflowyNode, CreatedNode}
use workflowy_mcp.Client.{Client}
use workflowy_mcp.Client.Walk.{Reads, SubtreeFetch, or_else, get_subtree_with_controls}
use workflowy_mcp.NameIndex.Save.{text_leb}
use workflowy_mcp.Workflows.{
  MutationFootprint, new_footprint, invalidate_cache_only, record_created,
}

abbrev pub max_tree_depth : ℕ
max_tree_depth = 10

abbrev pub max_subtree_nodes : ℕ
max_subtree_nodes = 10000

pub record DuplicateOutcome : Type 0 where
  pub original_id : Text
  pub new_root_id : Text
  pub nodes_created : ℕ

pub record TemplateOutcome : Type 0 where
  pub template_id : Text
  pub new_root_id : Text
  pub nodes_created : ℕ
  pub variables_applied : List Text

-- The new root, the number of creates, the footprint.
abbrev pub Copied : Type 0
Copied = Text × ℕ × MutationFootprint

-- `children_of.get(id)`: the nodes with this parent, in their order
unfoldable pub children_of : List WorkflowyNode → Text → List WorkflowyNode
unfolding text_eq
children_of nodes id =
    filter (λ n. elim n.parent_id [ none ↦ false | some pid ↦ text_eq pid id ]) nodes

-- The id of the copy of the parent, or the new root.
unfoldable pub new_parent_of : Dict Text → Text → WorkflowyNode → Text
unfolding lookup
new_parent_of id_map new_root_id node = elim node.parent_id [
  | none ↦ new_root_id
  | some pid ↦ elim (lookup pid id_map) [ none ↦ new_root_id | some id ↦ id ]
]

unfoldable pub bailed : Text → ℕ → List WorkflowyNode → WorkflowyError
unfolding ascii decimal
bailed how created_count nodes = internal (
    ascii "copy "
    ++ (how
        ++ (ascii " after creating "
            ++ (decimal created_count
                ++ (ascii " of "
                    ++ (decimal (length nodes)
                        ++ ascii " nodes; re-read the target to inspect the partial tree"))))))

-- What the loop has so far.
pub record Copying : Type 0 where
  pub id_map : Dict Text
  pub created_count : ℕ
  pub footprint : MutationFootprint

-- What the loop starts from, when the root is copied.
abbrev pub start_of : (WorkflowyNode → Text × Option Text) → Text → WorkflowyNode → Text → Copying
start_of transform target_parent_id root id =
    let (root_name, root_desc) = transform root in
    record {
      id_map = insert root.id id [];
      created_count = 1;
      footprint =
          record_created id root_name root_desc (some target_parent_id)
            (invalidate_cache_only target_parent_id new_footprint);
    }

module _ {W : Type 0} (client : Client W) (reads : Reads W) (default_deadline : W → Bool × W)
    (ctx : WorkflowContext W) where
  module _ (transform : WorkflowyNode → Text × Option Text) (nodes : List WorkflowyNode)
      (new_root_id : Text) where
    -- The copy of one node, under the copy of its parent.
    unfoldable pub copy_node : WorkflowyNode → Copying → Io W Copying
    unfolding new_parent_of insert record_created
    copy_node node now w =
        let new_parent = new_parent_of now.id_map new_root_id node in
        let (name, description) = transform node in
        let (r, w') = client.create_node name description (some new_parent) none w in
        elim r [
          | err e ↦ (err e, w')
          | ok created ↦ (
            ok record {
              id_map = insert node.id created.id now.id_map;
              created_count = now.created_count + 1;
              footprint =
                  record_created created.id name description (some new_parent) now.footprint;
            },
            w',
          )
        ]

    -- The `while` loop over the queue; none when the fuel is used up.
    unfoldable pub copy_queue : ℕ → List WorkflowyNode → Copying → W → Option (Result Copying) × W
    unfolding is_cancelled is_past_deadline bailed copy_node children_of ascii
    copy_queue fuel [] now w = (some (ok now), w)
    copy_queue zero (node ∷ queue) now w = (none, w)
    copy_queue (suc fuel) (node ∷ queue) now w =
        let (off, w₁) = is_cancelled ctx w in
        elim off [
          | true ↦ (some (err (bailed (ascii "cancelled") now.created_count nodes)), w₁)
          | false ↦
              let (late, w₂) = is_past_deadline ctx w₁ in
              elim late [
                | true ↦ (some (err (bailed (ascii "timed out") now.created_count nodes)), w₂)
                | false ↦
                    let (r, w₃) = copy_node node now w₂ in
                    elim r [
                      | err e ↦ (some (err e), w₃)
                      | ok next ↦ copy_queue fuel (queue ++ children_of nodes node.id) next w₃
                    ]
              ]
        ]

  unfoldable pub too_large : Text → ℕ → WorkflowyError
  unfolding ascii decimal
  too_large label limit = invalid_input (
      ascii "Cannot "
      ++ (label
          ++ (ascii ": source subtree exceeds "
              ++ (decimal limit
                  ++ ascii
                      " nodes. Refusing to produce a partial copy. Narrow the source or copy sub-branches individually."))))

  unfoldable pub not_found : Text → Text → WorkflowyError
  unfolding ascii
  not_found label id = invalid_input (label ++ (ascii " '" ++ (id ++ ascii "' not found")))

  -- The copy of the root, then the queue of its children.
  unfoldable pub copy_fetched :
      ℕ
      → (WorkflowyNode → Text × Option Text)
      → Text
      → List WorkflowyNode
      → WorkflowyNode
      → W
      → Option (Result Copied) × W
  unfolding invalidate_cache_only record_created copy_queue children_of insert
  copy_fetched fuel transform target_parent_id nodes root w =
      let (root_name, root_desc) = transform root in
      let (r, w₁) = client.create_node root_name root_desc (some target_parent_id) none w in
      elim r [
        | err e ↦ (some (err e), w₁)
        | ok created ↦
            let start = start_of transform target_parent_id root created.id in
            let (made, w₂) =
              copy_queue transform nodes created.id fuel (children_of nodes root.id) start w₁ in
            (
              elim made [
                | none ↦ none
                | some (err e) ↦ some (err e)
                | some (ok done) ↦ some (ok (created.id, done.created_count, done.footprint))
              ],
              w₂,
            )
      ]

  -- With the fuel of the loop, and the two labels of the refusals.
  unfoldable pub deep_copy_subtree :
      ℕ
      → Text
      → Text
      → ℕ
      → Text
      → Text
      → (WorkflowyNode → Text × Option Text)
      → W
      → Option (Result Copied) × W
  unfolding get_subtree_with_controls too_large not_found copy_fetched text_eq
  deep_copy_subtree fuel source_id target_parent_id walk_depth label found_label transform w =
      let controls : WorkflowContext W = record ctx {
        deadline = or_else ctx.deadline (some default_deadline);
      } in
      let (r, w₁) =
        get_subtree_with_controls reads controls false max_subtree_nodes (some source_id) walk_depth
          w in
      elim r [
        | err e ↦ (some (err e), w₁)
        | ok fetch ↦ elim fetch.truncated [
          | true ↦ (some (err (too_large label fetch.limit)), w₁)
          | false ↦ elim (find (λ n. text_eq n.id source_id) fetch.nodes) [
            | none ↦ (some (err (not_found found_label source_id)), w₁)
            | some root ↦ copy_fetched fuel transform target_parent_id fetch.nodes root w₁
          ]
        ]
      ]

  -- A prefix is for the root alone.
  unfoldable pub prefixed : Text → Option Text → WorkflowyNode → Text × Option Text
  unfolding text_eq
  prefixed source_id prefix node = (
    elim prefix [
      | none ↦ node.name
      | some p ↦ if text_eq node.id source_id then p ++ node.name else node.name
    ],
    node.description,
  )

  unfoldable pub duplicate_subtree :
      ℕ
      → Text
      → Text
      → Bool
      → Option Text
      → W
      → Option (Result (DuplicateOutcome × MutationFootprint)) × W
  unfolding deep_copy_subtree prefixed ascii
  duplicate_subtree fuel source_id target_parent_id include_children name_prefix w =
      let (r, w') =
        deep_copy_subtree fuel source_id target_parent_id
          (if include_children then max_tree_depth else 0) (ascii "duplicate") (ascii "Node")
          (prefixed source_id name_prefix) w in
      (
        elim r [
          | none ↦ none
          | some (err e) ↦ some (err e)
          | some (ok (new_root_id, nodes_created, footprint)) ↦ some (
              ok (
                record {
                  original_id = source_id;
                  new_root_id = new_root_id;
                  nodes_created = nodes_created;
                },
                footprint,
              ))
        ],
        w',
      )

  -- `substitute_vars` on the name and on the description.
  unfoldable pub instantiate_template :
      (substitute_vars : Dict Text → Text → Text)
      → ℕ
      → Text
      → Text
      → Dict Text
      → W
      → Option (Result (TemplateOutcome × MutationFootprint)) × W
  unfolding deep_copy_subtree ascii sort_by text_leb
  instantiate_template substitute_vars fuel template_id target_parent_id variables w =
      let transform : WorkflowyNode → Text × Option Text = λ node. (
        substitute_vars variables node.name,
        elim node.description [ none ↦ none | some d ↦ some (substitute_vars variables d) ],
      ) in
      let (r, w') =
        deep_copy_subtree fuel template_id target_parent_id max_tree_depth
          (ascii "instantiate template") (ascii "Template") transform w in
      (
        elim r [
          | none ↦ none
          | some (err e) ↦ some (err e)
          | some (ok (new_root_id, nodes_created, footprint)) ↦ some (
              ok (
                record {
                  template_id = template_id;
                  new_root_id = new_root_id;
                  nodes_created = nodes_created;
                  variables_applied = sort_by text_leb (map (λ v. v.0) variables);
                },
                footprint,
              ))
        ],
        w',
      )
