-- ===== src/Idempotency/Cap.antt =====
-- The cap of the idempotency store (utils/idempotency.rs).
use workflowy_mcp.Base.{
  ℕ, ◌-◌, ◌≤◌, Option, Text, Dict, Distinct, insert, length-remove_oldest, Distinct-insert,
  Distinct-retain, length, leb, arith, Bool-cases, inl, inr,
}
use workflowy_mcp.Idempotency.{
  Entry, IdempotencyStore, is_fresh, prune_expired, enforce_cap, record_create,
}

length-enforce_cap : (cap : ℕ) (m : Dict Entry) → Distinct m → length (enforce_cap cap m) ≤ cap
unfolding enforce_cap
length-enforce_cap cap m d = elim (Bool-cases (leb (length m) cap)) [
  | inl under ↦ rw under (ground (arith, under))
  | inr over ↦
      let removed =
        length-remove_oldest (λ e. e.recorded_unix_ms) (length m - cap) m d (omega arith) in
      rw over (ground (arith, over, removed))
]

-- However many creates are recorded and whatever their times, a store with one entry for each key never
-- holds more entries than its cap after a record.
pub record_create-cap :
    (key item_id name : Text) (parent_id : Option Text) (now : ℕ) (store : IdempotencyStore)
    → Distinct store.inner
    → length (record_create key item_id name parent_id now store).inner ≤ store.max_entries
unfolding record_create prune_expired
record_create-cap key item_id name parent_id now store d =
    let entry : Entry = record {
      item_id = item_id;
      name = name;
      parent_id = parent_id;
      recorded_unix_ms = now;
    } in
    let added = insert key entry store.inner in
    length-enforce_cap store.max_entries (prune_expired store.ttl_ms now added)
      (Distinct-retain (is_fresh store.ttl_ms now) added (Distinct-insert key entry store.inner d))
