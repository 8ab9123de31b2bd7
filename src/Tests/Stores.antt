-- ===== src/Tests/Stores.antt =====
-- The theorems on cancellation and on the idempotency keys at concrete inputs.
use mathlib.Core.List.Memᴰ
use workflowy_mcp.NodeCache.Subtree.{Leads, IsGone, IsLower, indexed, invalidate_subtree-IsGone}
use workflowy_mcp.Base.{
  sym, ap, Bool-cases, inl, inr, text_eq_iff, descent, ℕ, some, text_eq, ◌%◌, ◌^◌, ◌≤◌, ◌≡◌, refl,
  not, none, [], ◌∷◌, Text, length, lookup, Distinct, ◌==◌, if◌then◌else◌, arith,
}
use workflowy_mcp.Cancel.{new_registry, guard, is_cancelled}
use workflowy_mcp.Cancel.Generations.{after_cancels, is_cancelled-after_cancels}
use workflowy_mcp.Idempotency.{IdempotencyStore, check, record_create}
use workflowy_mcp.Idempotency.Hits.{hit_at, check_lem, check-record_create}
use workflowy_mcp.Idempotency.Cap.{record_create-cap}
use workflowy_mcp.JobQueue.{
  JobQueue, JobQueueConfig, new_queue, submit, complete, cleanup, finished_jobs,
}
use workflowy_mcp.JobQueue.History.{
  Reachable, started, submitted, completed_one, unfinished, cleanup-keeps,
}
use workflowy_mcp.Types.{WorkflowyNode, default_node}
use workflowy_mcp.NodeCache.{
  NodeCache, new_cache, insert_node, invalidate_subtree, max_cached_listings, children_listing,
  insert_children_listing, invalidate_node,
}
use workflowy_mcp.NodeCache.Listings.{
  is_dropped, insert_children_listing-bound, children_listing-insert,
  children_listing-invalidate_node,
}

is_cancelled-after_cancels_example :
    is_cancelled
      (guard (after_cancels 3 new_registry))
      (after_cancels 1 (after_cancels 3 new_registry))
    ≡ not (1 % 2 ^ 64 == 0)
is_cancelled-after_cancels_example = is_cancelled-after_cancels 3 1

abbrev k_key : Text
k_key = b'k' ∷ []

abbrev old_key : Text
old_key = b'o' ∷ []

-- One create at time 5; keys live for 10 and two of them fit.
abbrev one_create : IdempotencyStore
one_create = record {
  inner =
      (old_key, record { item_id = []; name = []; parent_id = none; recorded_unix_ms = 5 }) ∷ [];
  ttl_ms = 10;
  max_entries = 2;
}

one_each : Distinct one_create.inner
unfolding lookup
one_each = (refl, tt)

check_lem_example : (check old_key 12 one_create).0 ≡ hit_at 10 12 (lookup old_key one_create.inner)
check_lem_example = check_lem old_key 12 one_create one_each

check-record_create_example :
    (check k_key 17 (record_create k_key [] [] none 9 one_create)).0
    ≡ some record { item_id = []; name = []; parent_id = none; age_ms = 8 }
check-record_create_example =
    check-record_create k_key [] [] none 9 17 one_create one_each (omega arith) (omega arith)
      (omega arith)

record_create-cap_example : length (record_create k_key [] [] none 9 one_create).inner ≤ 2
record_create-cap_example = record_create-cap k_key [] [] none 9 one_create one_each

abbrev child : WorkflowyNode
child = record default_node { id = k_key }

insert_children_listing-bound_example :
    length (insert_children_listing 7 old_key (child ∷ []) new_cache).listings ≤ max_cached_listings
insert_children_listing-bound_example =
    insert_children_listing-bound 7 old_key (child ∷ []) new_cache

children_listing-insert_example :
    children_listing 30000000007 old_key (insert_children_listing 7 old_key (child ∷ []) new_cache)
    ≡ some (child ∷ [])
children_listing-insert_example =
    children_listing-insert 7 30000000007 old_key (child ∷ []) new_cache (omega arith) (omega arith)

abbrev one_listing : NodeCache
one_listing = insert_children_listing 7 old_key (child ∷ []) new_cache

children_listing-invalidate_node_example :
    children_listing 8 old_key (invalidate_node k_key one_listing) ≡ (
      if is_dropped k_key one_listing old_key then none else children_listing 8 old_key one_listing)
children_listing-invalidate_node_example =
    children_listing-invalidate_node 8 k_key old_key one_listing

-- Two finished jobs and one that waits, where one finished job fits.
abbrev small_history : JobQueueConfig
small_history = record {
  completed_job_ttl_secs = 9;
  max_job_history = 1;
  cleanup_interval_secs = 3;
}

abbrev open_key : Text
open_key = b'r' ∷ []

abbrev started_up : JobQueue ℕ
started_up = new_queue small_history

abbrev one_job : JobQueue ℕ
one_job = submit old_key 1 started_up

abbrev two_jobs : JobQueue ℕ
two_jobs = submit k_key 2 one_job

abbrev three_jobs : JobQueue ℕ
three_jobs = submit open_key 3 two_jobs

abbrev one_done : JobQueue ℕ
one_done = complete 1 old_key 6 three_jobs

abbrev busy : JobQueue ℕ
busy = complete 1 k_key 8 one_done

busy-Reachable : Reachable busy
busy-Reachable = completed_one 1 k_key 8 one_done (
    completed_one 1 old_key 6 three_jobs (
      submitted open_key 3 two_jobs
        (submitted k_key 2 one_job (submitted old_key 1 started_up (started small_history)))))

cleanup-keeps_example :
    (length (finished_jobs (cleanup 9 busy).jobs) ≤ busy.config.max_job_history)
    × (unfinished (lookup open_key (cleanup 9 busy).jobs) ≡ unfinished (lookup open_key busy.jobs))
cleanup-keeps_example = cleanup-keeps 9 busy open_key busy-Reachable

-- A cache of a node and its child.
abbrev below_child : WorkflowyNode
below_child = record default_node { id = k_key; parent_id = some old_key }

abbrev one_child : NodeCache
one_child =
    insert_node 7 below_child (insert_node 7 (record default_node { id = old_key }) new_cache)

abbrev height : Text → ℕ
unfolding text_eq
height id = if text_eq old_key id then 1 else 0

one_child-IsLower : IsLower height one_child.children_index
unfolding height text_eq lookup insert_node
one_child-IsLower p c m = elim (Bool-cases (text_eq old_key p)) [
  | inl same ↦
      let equal : old_key ≡ p = ground (arith, same, text_eq_iff old_key p) in
      elim (Memᴰ.cases_cons (rw same at m)) [
        | inl itself ↦
            let low : height c ≡ 0 = ap height itself in
            let high : height p ≡ 1 = ap height (sym equal) in omega (arith, low, high)
        | inr later ↦ absurd (Memᴰ.not-nil later)
      ]
  | inr other ↦ absurd (Memᴰ.not-nil (rw other at m))
]

root_low : height old_key ≤ 1
unfolding height text_eq
root_low = omega arith

two_ids : descent (indexed one_child.children_index) 1 old_key ≤ 2
unfolding lookup text_eq insert_node
two_ids = omega arith

invalidate_subtree-IsGone_example :
    (end : NodeCache) × (invalidate_subtree 2 old_key one_child ≡ some end)
    × ((id : Text) → Leads one_child.children_index old_key id → IsGone id end)
invalidate_subtree-IsGone_example =
    invalidate_subtree-IsGone height 1 2 old_key one_child one_child-IsLower root_low two_ids
