-- ===== src/Idempotency.antt =====
-- The idempotency keys of creates (utils/idempotency.rs). The order in which the map yields entries of
-- the same age is that of the list here; the code leaves it to the hash map.
pub mod Hits
pub mod Cap
use workflowy_mcp.Base.{
  ℕ, ◌+◌, ◌-◌, Bool, true, false, Option, none, some, List, [], ◌∷◌, map, Text, text_eq, Dict,
  lookup, insert, retain, remove_keys, sort_by_key, length, take, ltb, leb, if◌then◌else◌,
}

pub record Entry : Type 0 where
  pub item_id : Text
  pub name : Text
  pub parent_id : Option Text
  pub recorded_unix_ms : ℕ

pub record IdempotencyHit : Type 0 where
  pub item_id : Text
  pub name : Text
  pub parent_id : Option Text
  pub age_ms : ℕ

pub record IdempotencyStore : Type 0 where
  pub inner : Dict Entry
  pub ttl_ms : ℕ
  pub max_entries : ℕ

unfoldable pub is_fresh : ℕ → ℕ → Text → Entry → Bool
is_fresh ttl_ms now_ms key e = ltb (now_ms - e.recorded_unix_ms) ttl_ms

unfoldable pub prune_expired : ℕ → ℕ → Dict Entry → Dict Entry
unfolding is_fresh retain
prune_expired ttl_ms now_ms m = retain (is_fresh ttl_ms now_ms) m

abbrev pub hit_of : ℕ → Entry → IdempotencyHit
hit_of now_ms e = record {
  item_id = e.item_id;
  name = e.name;
  parent_id = e.parent_id;
  age_ms = now_ms - e.recorded_unix_ms;
}

unfoldable pub check : Text → ℕ → IdempotencyStore → Option IdempotencyHit × IdempotencyStore
unfolding prune_expired lookup
check key now_ms store =
    let m = prune_expired store.ttl_ms now_ms store.inner in
    (
      elim (lookup key m) [ none ↦ none | some e ↦ some (hit_of now_ms e) ],
      record store { inner = m },
    )

abbrev pub by_age : Dict Entry → List (Text × Entry)
unfolding sort_by_key
by_age m = sort_by_key (λ e. e.recorded_unix_ms) m

-- The oldest entries go until the map is under the cap.
unfoldable pub enforce_cap : ℕ → Dict Entry → Dict Entry
unfolding sort_by_key remove_keys
enforce_cap max_entries m =
    let evicted = remove_keys (take (length m - max_entries) (by_age m)) m in
    if leb (length m) max_entries then m else evicted

unfoldable pub record_create :
    Text → Text → Text → Option Text → ℕ → IdempotencyStore → IdempotencyStore
unfolding insert prune_expired enforce_cap
record_create key item_id name parent_id now_ms store =
    let entry : Entry = record {
      item_id = item_id;
      name = name;
      parent_id = parent_id;
      recorded_unix_ms = now_ms;
    } in
    record store {
      inner =
          enforce_cap store.max_entries
            (prune_expired store.ttl_ms now_ms (insert key entry store.inner));
    }
