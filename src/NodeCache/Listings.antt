-- ===== src/NodeCache/Listings.antt =====
-- The children listings of the node cache (utils/cache.rs).
use workflowy_mcp.Base.{
  ℕ, suc, ◌+◌, ◌*◌, ◌^◌, ◌≤◌, ◌<◌, ◌≡◌, ◌∙◌, Bool, false, ◌||◌, none, some, List, Text, text_eq,
  text_eq_refl, Dict, lookup, erase, insert, lookup-insert, lookup-erase, length-erase-le, length,
  arith, if◌then◌else◌, Bool-cases, Option-cases, inl, inr,
}
use workflowy_mcp.Types.{WorkflowyNode}
use workflowy_mcp.NodeCache.{
  NodeCache, ListingEntry, max_cached_listings, cache_ttl_secs, elapsed_secs, is_expired,
  children_listing, make_room, insert_children_listing, invalidate_node,
  invalidate_listing_containing,
}

make_room-room :
    (now : ℕ) (c : NodeCache) → suc (length (make_room now c).listings) ≤ max_cached_listings
unfolding make_room
make_room-room now c = ground arith

length-insert-le :
    (k : Text) (e : ListingEntry) (m : Dict ListingEntry) → length (insert k e m) ≤ suc (length m)
unfolding insert
length-insert-le k e m = omega (arith, length-erase-le k m)

-- Whatever the cache held, it holds no more listings than its bound after one was inserted.
pub insert_children_listing-bound :
    (now : ℕ) (key : Text) (children : List WorkflowyNode) (c : NodeCache)
    → length (insert_children_listing now key children c).listings ≤ max_cached_listings
unfolding insert_children_listing
insert_children_listing-bound now key children c = omega (
  arith,
  make_room-room now c,
  length-insert-le key record { children = children; timestamp = now } (make_room now c).listings,
)

not_expired :
    (now later : ℕ)
    → now ≤ later
    → later < now + (cache_ttl_secs + 1) * 10 ^ 9
    → is_expired later now ≡ false
unfolding is_expired elapsed_secs
not_expired now later h k = ground (arith, h, k)

-- A listing is served as it was inserted, in its order, until 31 seconds after.
pub children_listing-insert :
    (now later : ℕ) (key : Text) (children : List WorkflowyNode) (c : NodeCache)
    → now ≤ later
    → later < now + (cache_ttl_secs + 1) * 10 ^ 9
    → children_listing later key (insert_children_listing now key children c) ≡ some children
unfolding children_listing insert_children_listing
children_listing-insert now later key children c h k = rw (
  children_listing,
  lookup-insert key key record { children = children; timestamp = now } (make_room now c).listings,
  text_eq_refl key,
  not_expired now later h k,
)

-- Whether a listing goes when a node is invalidated: it is the node's own, or the one that the node was
-- last seen in.
abbrev pub is_dropped : Text → NodeCache → Text → Bool
is_dropped id c key =
    text_eq id key
    || elim (lookup id c.member_of) [ none ↦ false | some listing ↦ text_eq listing key ]

lookup-invalidate_node :
    (id key : Text) (c : NodeCache)
    → lookup key (invalidate_node id c).listings
      ≡ (if is_dropped id c key then none else lookup key c.listings)
unfolding invalidate_node invalidate_listing_containing
lookup-invalidate_node id key c = elim (Option-cases (lookup id c.member_of)) [
  | inl e ↦ rw (e, invalidate_listing_containing) (ground (arith, lookup-erase id key c.listings))
  | inr (listing, e) ↦
      rw (e, invalidate_listing_containing)
        (ground
          (arith, lookup-erase id key c.listings, lookup-erase listing key (erase id c.listings)))
]

-- After invalidate_node the node's own listing and the one that it was last seen in are not served, and
-- every other listing is served as before.
pub children_listing-invalidate_node :
    (now : ℕ) (id key : Text) (c : NodeCache)
    → children_listing now key (invalidate_node id c)
      ≡ (if is_dropped id c key then none else children_listing now key c)
unfolding children_listing
children_listing-invalidate_node now id key c = elim (Bool-cases (is_dropped id c key)) [
  | inl gone ↦
      let absent : lookup key (invalidate_node id c).listings ≡ none =
        lookup-invalidate_node id key c ∙ rw gone in
      rw (gone, absent, children_listing)
  | inr kept ↦
      let same : lookup key (invalidate_node id c).listings ≡ lookup key c.listings =
        lookup-invalidate_node id key c ∙ rw kept in
      rw (kept, same, children_listing)
]
