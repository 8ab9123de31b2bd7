-- ===== src/Workflows/Copy/Closed.antt =====
-- How a set of copied ids (workflows.rs, deep_copy_subtree) that is closed under the children reaches down
-- the tree, and the root among the fetched nodes.
use mathlib.Core.List.{Memᴰ}
use workflowy_mcp.Base.{
  ℕ, zero, suc, ◌+◌, ◌≤◌, ◌≡◌, sym, ap, ◌∙◌, true, some, List, [], ◌∷◌, Text, text_eq, text_eq_iff,
  Dict, contains_key, find, Bool-cases, inl, inr, arith,
}
use workflowy_mcp.Types.{WorkflowyNode}
use workflowy_mcp.Client.Walk.Levels.{Below}
use workflowy_mcp.Workflows.Copy.{children_of}
use workflowy_mcp.Workflows.Copy.Copied.{Memᴰ-children_of}

pub found-id :
    (source : Text) (nodes : List WorkflowyNode) (root : WorkflowyNode)
    → find (λ n. text_eq n.id source) nodes ≡ some root
    → root.id ≡ source
found-id source [] root h = cc h
found-id source (n ∷ nodes) root h = elim (Bool-cases (text_eq n.id source)) [
  | inl same ↦
      let equal : n ≡ root = cc (rw (same, find) at h) in
      ap (λ x. x.id) (sym equal) ∙ ground (arith, same, text_eq_iff n.id source)
  | inr other ↦ found-id source nodes root (rw (other, find) at h)
]

pub find-Memᴰ :
    (source : Text) (nodes : List WorkflowyNode) (root : WorkflowyNode)
    → find (λ n. text_eq n.id source) nodes ≡ some root
    → Memᴰ root nodes
find-Memᴰ source [] root h = cc h
find-Memᴰ source (n ∷ nodes) root h = elim (Bool-cases (text_eq n.id source)) [
  | inl same ↦ let equal : n ≡ root = cc (rw (same, find) at h) in Memᴰ.head (sym equal)
  | inr other ↦ Memᴰ.tail (find-Memᴰ source nodes root (rw (other, find) at h))
]

module _ (kids : Text → List WorkflowyNode) where
  -- One level further down.
  Below-child :
      (m : ℕ) (level : List WorkflowyNode) (u v : WorkflowyNode)
      → Below kids m level u
      → Memᴰ v (kids u.id)
      → Below kids (suc m) level v
  Below-child zero level u v at_u m = (u, at_u, m)
  Below-child (suc k) level u v (x, there, b) m = (x, there, Below-child k (kids x.id) u v b m)

  -- A set that is closed under the children within a depth has all that is below its members.
  module _ (source : Text) (depth : ℕ) (nodes : List WorkflowyNode) (copies : Dict Text)
      (all_there : (m : ℕ) (x : WorkflowyNode)
        → m ≤ depth
        → Below kids m (kids source) x
        → Memᴰ x nodes)
      (owned : (p : Text) (c : WorkflowyNode) → Memᴰ c (kids p) → c.parent_id ≡ some p)
      (closed : (p : Text) (c : WorkflowyNode)
        → contains_key p copies ≡ true
        → Memᴰ c (children_of nodes p)
        → contains_key c.id copies ≡ true) where
    child_copied :
        (m : ℕ) (p : Text) (c : WorkflowyNode)
        → m ≤ depth
        → contains_key p copies ≡ true
        → Below kids m (kids source) c
        → Memᴰ c (kids p)
        → contains_key c.id copies ≡ true
    child_copied m p c few at_p below there =
        closed p c at_p (Memᴰ-children_of nodes p c (all_there m c few below) (owned p c there))

    pub Below-copied :
        (m n : ℕ) (p : Text) (v : WorkflowyNode)
        → m + n ≤ depth
        → contains_key p copies ≡ true
        → ((x : WorkflowyNode) → Memᴰ x (kids p) → Below kids m (kids source) x)
        → Below kids n (kids p) v
        → contains_key v.id copies ≡ true
    Below-copied m zero p v few at_p from there =
        child_copied m p v (omega arith) at_p (from v there) there
    Below-copied m (suc n) p v few at_p from (u, there, lower) =
        Below-copied (suc m) n u.id v (omega arith)
          (child_copied m p u (omega arith) at_p (from u there) there)
          (λ x k. Below-child m (kids source) u x (from u there) k) lower
