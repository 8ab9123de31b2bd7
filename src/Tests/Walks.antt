-- ===== src/Tests/Walks.antt =====
-- The theorems on the walks and the copies at concrete inputs: a tree of a node and its child.
use mathlib.Core.List.{Memᴰ}
use mathlib.Core.List.Memᴰ
use workflowy_mcp.Base.{
  ℕ, ◌≤◌, ◌<◌, ◌≡◌, ◌≢◌, refl, sym, ap, ◌∙◌, inl, inr, max, Bool, true, false, Option, none, some,
  List, [], ◌∷◌, Text, text_eq, text_eq_iff, contains_key, length, arith, Dict, Bool-cases,
  pair_fst,
}
use workflowy_mcp.Error.{ok}
use workflowy_mcp.Types.{WorkflowyNode, default_node}
use workflowy_mcp.Context.{is_cancelled, is_past_deadline}
use workflowy_mcp.Client.Walk.{Reads, SubtreeFetch, get_subtree_with_controls}
use workflowy_mcp.Client.Walk.Drains.{ReadsTree}
use workflowy_mcp.Client.Walk.Covers.{get_subtree_with_controls-covers}
use workflowy_mcp.Client.Walk.Bounds.{get_subtree_with_controls-limit}
use workflowy_mcp.Workflows.{MutationFootprint}
use workflowy_mcp.Workflows.Copy.{
  Copied, DuplicateOutcome, children_of, copy_fetched, deep_copy_subtree, duplicate_subtree,
  prefixed,
}
use workflowy_mcp.Workflows.Copy.Copied.{created_as, IsCopy}
use workflowy_mcp.Workflows.Creates.{Creates}
use workflowy_mcp.Workflows.Copy.Made.{copy_create}
use workflowy_mcp.Client.Walk.Levels.{Below}
use workflowy_mcp.Workflows.Copy.Whole.{
  ReadsNodes, after_fetch, deep_copy_subtree-IsCopy, duplicate_subtree-has_children,
}
use workflowy_mcp.Workflows.Copy.Ends.{copy_size, copy_fetched_ends}
use workflowy_mcp.Tests.World.{Children, children_client, no_signals, a_id, b_id, p_id}

abbrev root_node : WorkflowyNode
root_node = record default_node { id = a_id; name = a_id }

abbrev child_node : WorkflowyNode
child_node = record default_node { id = b_id; name = b_id; parent_id = some a_id }

abbrev node_of : Text → WorkflowyNode
unfolding text_eq
node_of id = elim (text_eq id b_id) [
  | true ↦ child_node
  | false ↦ record default_node { id = id; name = id }
]

abbrev kids : Text → List WorkflowyNode
unfolding text_eq
kids id = elim (text_eq id a_id) [ true ↦ child_node ∷ [] | false ↦ [] ]

abbrev tree_reads : Reads Children
unfolding kids node_of
tree_reads = record {
  get_node_cancellable = λ id w. (ok (node_of id), w);
  get_top_level_nodes_cancellable = λ w. (ok (root_node ∷ []), w);
  get_children_cancellable = λ id w. (ok (kids id), w);
  completion_order = λ ids w. (ids, w);
  retry_after_remaining_ms = λ w. (none, w);
  fits_budget = λ ms w. (true, w);
  sleep = λ ms w. w;
}

tree_reads-ReadsTree : ReadsTree tree_reads kids
unfolding tree_reads
tree_reads-ReadsTree = record {
  listed = λ id w w' children h. let same : kids id ≡ children = cc (pair_fst h) in sym same;
  all_end = λ ids w id m. m;
}

is_child : Memᴰ child_node (kids a_id)
unfolding kids text_eq
is_child = Memᴰ.head refl

kids-parent : (p : Text) (c : WorkflowyNode) → Memᴰ c (kids p) → c.parent_id ≡ some p
unfolding kids
kids-parent p c m = elim (Bool-cases (text_eq p a_id)) [
  | inl same ↦
      let equal : p ≡ a_id = ground (arith, same, text_eq_iff p a_id) in
      elim (Memᴰ.cases_cons (rw (same, kids) at m)) [
        | inl here ↦ ap (λ x. x.parent_id) here ∙ ap (λ t. some t) (sym equal)
        | inr later ↦ absurd (Memᴰ.not-nil later)
      ]
  | inr other ↦ absurd (Memᴰ.not-nil (rw (other, kids) at m))
]

node_of-id : (id : Text) → (node_of id).id ≡ id
unfolding node_of
node_of-id id = elim (Bool-cases (text_eq id b_id)) [
  | inl same ↦
      let equal : id ≡ b_id = ground (arith, same, text_eq_iff id b_id) in
      let at_child : node_of id ≡ child_node = rw (same, node_of) in
      ap (λ x. x.id) at_child ∙ sym equal
  | inr other ↦ rw (other, node_of)
]

kids-node_of : (p : Text) (c : WorkflowyNode) → Memᴰ c (kids p) → c ≡ node_of c.id
unfolding kids node_of text_eq
kids-node_of p c m = elim (Bool-cases (text_eq p a_id)) [
  | inl same ↦ elim (Memᴰ.cases_cons (rw (same, kids) at m)) [
    | inl here ↦
        let is_child_node : child_node ≡ node_of child_node.id = refl in
        here ∙ is_child_node ∙ ap (λ x. node_of x.id) (sym here)
    | inr later ↦ absurd (Memᴰ.not-nil later)
  ]
  | inr other ↦ absurd (Memᴰ.not-nil (rw (other, kids) at m))
]

tree_reads-ReadsNodes : ReadsNodes tree_reads kids node_of
unfolding tree_reads
tree_reads-ReadsNodes = record {
  named = node_of-id;
  read = λ id w w' n h. let same : node_of id ≡ n = cc (pair_fst h) in sym same;
  listed_node = kids-node_of;
  owned = kids-parent;
}

abbrev tree_fetch : SubtreeFetch
tree_fetch = record {
  nodes = root_node ∷ child_node ∷ [];
  truncated = false;
  limit = 5;
  truncation_reason = none;
  truncated_at_node_id = none;
  skipped_branches = [];
}

fetches :
    get_subtree_with_controls tree_reads no_signals false 5 (some a_id) 3 [] ≡ (ok tree_fetch, [])
unfolding get_subtree_with_controls tree_reads kids node_of text_eq is_cancelled is_past_deadline
fetches = refl

get_subtree_with_controls-covers_example : Memᴰ child_node tree_fetch.nodes
get_subtree_with_controls-covers_example =
    get_subtree_with_controls-covers tree_reads no_signals false 5 kids tree_reads-ReadsTree a_id 0
      3 child_node [] [] tree_fetch fetches refl (omega arith) is_child

get_subtree_with_controls-limit_example : length tree_fetch.nodes ≤ max 1 5
get_subtree_with_controls-limit_example =
    get_subtree_with_controls-limit tree_reads no_signals false 5 (some a_id) 3 [] [] tree_fetch
      fetches

abbrev now_late : Children → Bool × Children
now_late w = (false, w)

abbrev verbatim : WorkflowyNode → Text × Option Text
verbatim node = (node.name, node.description)

abbrev footprint_made : MutationFootprint
footprint_made = record {
  invalidated_nodes = p_id ∷ [];
  invalidated_name_index = [];
  created_nodes =
      record default_node { id = a_id; name = a_id; parent_id = some p_id }
      ∷ record default_node { id = b_id; name = b_id; parent_id = some a_id }
      ∷ [];
}

abbrev copied : Copied
copied = (a_id, 2, footprint_made)

copies_made :
    deep_copy_subtree children_client tree_reads now_late no_signals 9 a_id p_id 3 [] [] verbatim []
    ≡ (some (ok copied), b_id ∷ a_id ∷ [])
unfolding deep_copy_subtree tree_reads kids node_of text_eq is_cancelled is_past_deadline
copies_made = refl

deep_copy_subtree-IsCopy_example :
    (copies : Dict Text) × IsCopy node_of verbatim p_id a_id a_id copies
      footprint_made.created_nodes
    × Creates no_signals
        (copy_create children_client)
        0
        footprint_made.created_nodes
        (after_fetch children_client tree_reads now_late no_signals kids node_of
          tree_reads-ReadsTree tree_reads-ReadsNodes a_id 3 [])
        (b_id ∷ a_id ∷ [])
    × (2 ≡ length footprint_made.created_nodes)
    × ((n : ℕ) (v : WorkflowyNode)
        → n ≤ 4
        → Below kids n (node_of a_id ∷ []) v
        → contains_key v.id copies ≡ true)
deep_copy_subtree-IsCopy_example =
    deep_copy_subtree-IsCopy children_client tree_reads now_late no_signals kids node_of
      tree_reads-ReadsTree tree_reads-ReadsNodes 9 a_id p_id 3 [] [] verbatim copied []
      (b_id ∷ a_id ∷ []) copies_made

abbrev outcome_made : DuplicateOutcome
outcome_made = record { original_id = a_id; new_root_id = a_id; nodes_created = 2 }

duplicates :
    duplicate_subtree children_client tree_reads now_late no_signals 9 a_id p_id false none []
    ≡ (some (ok (outcome_made, footprint_made)), b_id ∷ a_id ∷ [])
unfolding duplicate_subtree tree_reads kids node_of text_eq is_cancelled is_past_deadline
duplicates = refl

duplicate_subtree-has_children_example :
    (copies : Dict Text) × IsCopy node_of
      (prefixed children_client tree_reads now_late no_signals a_id none)
      p_id
      a_id
      a_id
      copies
      footprint_made.created_nodes
    × Creates no_signals
        (copy_create children_client)
        0
        footprint_made.created_nodes
        (after_fetch children_client tree_reads now_late no_signals kids node_of
          tree_reads-ReadsTree tree_reads-ReadsNodes a_id 0 [])
        (b_id ∷ a_id ∷ [])
    × (2 ≡ length footprint_made.created_nodes)
    × (id parent : Text) × Memᴰ
        (created_as id
          (prefixed children_client tree_reads now_late no_signals a_id none child_node)
          parent)
        footprint_made.created_nodes
duplicate_subtree-has_children_example =
    duplicate_subtree-has_children children_client tree_reads now_late no_signals kids node_of
      tree_reads-ReadsTree tree_reads-ReadsNodes 9 a_id p_id none outcome_made footprint_made []
      (b_id ∷ a_id ∷ []) child_node duplicates is_child

-- The height of a node in the tree.
abbrev height : Text → ℕ
unfolding text_eq
height id = elim (text_eq id a_id) [ true ↦ 1 | false ↦ 0 ]

abbrev tree_nodes : List WorkflowyNode
tree_nodes = root_node ∷ child_node ∷ []

child_lower :
    (p : Text) (c : WorkflowyNode) → Memᴰ c (children_of tree_nodes p) → height c.id < height p
unfolding children_of height text_eq
child_lower p c m = elim (Bool-cases (text_eq a_id p)) [
  | inl same ↦
      let equal : a_id ≡ p = ground (arith, same, text_eq_iff a_id p) in
      elim (Memᴰ.cases_cons (rw (same, children_of) at m)) [
        | inl here ↦
            let below : height c.id ≡ 0 = ap (λ n. height n.id) here in
            let above : height p ≡ 1 = ap height (sym equal) in omega (arith, below, above)
        | inr later ↦ absurd (Memᴰ.not-nil later)
      ]
  | inr other ↦ absurd (Memᴰ.not-nil (rw (other, children_of) at m))
]

low_root : height root_node.id ≤ 1
unfolding height text_eq
low_root = omega arith

small : copy_size tree_nodes 1 root_node ≤ 2
unfolding children_of text_eq
small = omega arith

copy_fetched_ends_example :
    (copy_fetched children_client tree_reads now_late no_signals 2 verbatim p_id tree_nodes
      root_node []).0
    ≢ none
copy_fetched_ends_example =
    copy_fetched_ends tree_nodes height child_lower children_client tree_reads now_late no_signals
      verbatim 1 2 p_id root_node [] low_root small
