-- ===== src/Idempotency/Hits.antt =====
-- What check finds (utils/idempotency.rs).
use workflowy_mcp.Base.{
  ℕ, suc, ◌+◌, ◌-◌, ◌≤◌, ◌<◌, ◌≡◌, refl, ◌∙◌, Option, none, some, Text, text_eq_refl, Dict,
  Distinct, lookup, insert, keep_if, lookup-retain, lookup-insert, Distinct-insert, Distinct-retain,
  length, length-retain-le, length-erase-le, ltb, arith, if◌then◌else◌,
}
use workflowy_mcp.Idempotency.{
  Entry, IdempotencyHit, IdempotencyStore, is_fresh, prune_expired, hit_of, check, enforce_cap,
  record_create,
}

-- The hit for the entry of a key, if it has one that is not expired.
abbrev pub hit_at : ℕ → ℕ → Option Entry → Option IdempotencyHit
hit_at ttl_ms now_ms none = none
hit_at ttl_ms now_ms (some e) =
    if ltb (now_ms - e.recorded_unix_ms) ttl_ms then some (hit_of now_ms e) else none

hit-kept :
    (ttl now : ℕ) (key : Text) (o : Option Entry)
    → elim (keep_if (is_fresh ttl now) key o) [ none ↦ none | some e ↦ some (hit_of now e) ]
      ≡ hit_at ttl now o
unfolding keep_if is_fresh
hit-kept ttl now key none = refl
hit-kept ttl now key (some e) = ground arith

-- On a store with one entry for each key, check finds the entry of the key with its age, if that is
-- below the time to live, and nothing otherwise; the expired entries that it prunes make no difference.
pub check_lem :
    (key : Text) (now : ℕ) (store : IdempotencyStore)
    → Distinct store.inner
    → (check key now store).0 ≡ hit_at store.ttl_ms now (lookup key store.inner)
unfolding check prune_expired
check_lem key now store h =
    rw (check, lookup-retain (is_fresh store.ttl_ms now) key store.inner h)
      (hit-kept store.ttl_ms now key (lookup key store.inner))

enforce_cap-small : (cap : ℕ) (m : Dict Entry) → length m ≤ cap → enforce_cap cap m ≡ m
unfolding enforce_cap
enforce_cap-small cap m h = ground (arith, h)

kept_new :
    (ttl now : ℕ) (key : Text) (e : Entry) (m : Dict Entry)
    → Distinct m
    → e.recorded_unix_ms ≡ now
    → 0 < ttl
    → lookup key (prune_expired ttl now (insert key e m)) ≡ some e
unfolding prune_expired keep_if is_fresh
kept_new ttl now key e m d at_now pos =
    lookup-retain (is_fresh ttl now) key (insert key e m) (Distinct-insert key e m d)
    ∙ rw (lookup-insert key key e m, text_eq_refl key) (ground (arith, at_now, pos))

Distinct-pruned : (ttl now : ℕ) (m : Dict Entry) → Distinct m → Distinct (prune_expired ttl now m)
unfolding prune_expired
Distinct-pruned ttl now m d = Distinct-retain (is_fresh ttl now) m d

length-pruned :
    (ttl now : ℕ) (key : Text) (e : Entry) (m : Dict Entry)
    → length (prune_expired ttl now (insert key e m)) ≤ suc (length m)
unfolding prune_expired insert
length-pruned ttl now key e m =
    omega (arith, length-retain-le (is_fresh ttl now) (insert key e m), length-erase-le key m)

-- A create that is recorded while the store is under its cap is found under its key until the time to
-- live is over, with its result and the time that went by.
pub check-record_create :
    (key item_id name : Text) (parent_id : Option Text) (now later : ℕ) (store : IdempotencyStore)
    → Distinct store.inner
    → length store.inner < store.max_entries
    → now ≤ later
    → later < now + store.ttl_ms
    → (check key later (record_create key item_id name parent_id now store)).0
      ≡ some record { item_id = item_id; name = name; parent_id = parent_id; age_ms = later - now }
unfolding record_create
check-record_create key item_id name parent_id now later store d room order alive =
    let entry : Entry = record {
      item_id = item_id;
      name = name;
      parent_id = parent_id;
      recorded_unix_ms = now;
    } in
    let m = prune_expired store.ttl_ms now (insert key entry store.inner) in
    let small = length-pruned store.ttl_ms now key entry store.inner in
    let same = enforce_cap-small store.max_entries m (omega (arith, small, room)) in
    let there =
      kept_new store.ttl_ms now key entry store.inner d refl (omega (arith, order, alive)) in
    let pruned_d =
      Distinct-pruned store.ttl_ms now (insert key entry store.inner)
        (Distinct-insert key entry store.inner d) in
    rw same (
      check_lem key later (record store { inner = m }) pruned_d
      ∙ rw there (ground (arith, order, alive)))
