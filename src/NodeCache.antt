-- ===== src/NodeCache.antt =====
-- The node cache (utils/cache.rs): nodes by id, and children listings by parent with the listing that
-- displays each child. Times are nanoseconds handed in by the caller; the locks and the batch depth,
-- which is zero whenever a method returns, are not modelled.
pub mod Listings
pub mod Subtree
use workflowy_mcp.Base.{
  ℕ, zero, suc, ◌+◌, ◌-◌, ◌*◌, ◌/◌, ◌^◌, Bool, true, false, ◌&&◌, Option, none, some, List, [], ◌∷◌,
  ◌++◌, Text, Dict, lookup, erase, insert, retain, length, ltb, leb, if◌then◌else◌,
}
use workflowy_mcp.Types.{WorkflowyNode}

abbrev pub cache_ttl_secs : ℕ
cache_ttl_secs = 30

abbrev pub max_cached_listings : ℕ
max_cached_listings = 4096

pub record CacheEntry : Type 0 where
  pub node : WorkflowyNode
  pub timestamp : ℕ

pub record ListingEntry : Type 0 where
  pub children : List WorkflowyNode
  pub timestamp : ℕ

pub record NodeCache : Type 0 where
  pub cache : Dict CacheEntry
  pub children_index : Dict (List Text)
  pub listings : Dict ListingEntry
  pub member_of : Dict Text

abbrev pub new_cache : NodeCache
new_cache = record { cache = []; children_index = []; listings = []; member_of = [] }

-- `elapsed()` in whole seconds; none if the clock stands before the timestamp
unfoldable pub elapsed_secs : ℕ → ℕ → Option ℕ
elapsed_secs now timestamp = if leb timestamp now then some ((now - timestamp) / 10 ^ 9) else none

-- An entry is past its time to live; one from the future is not.
unfoldable pub is_expired : ℕ → ℕ → Bool
unfolding elapsed_secs
is_expired now timestamp = elim (elapsed_secs now timestamp) [
  | none ↦ false
  | some secs ↦ ltb cache_ttl_secs secs
]

-- The purge keeps an entry within its time to live, and none from the future.
unfoldable pub is_live : ℕ → Text → ListingEntry → Bool
unfolding elapsed_secs
is_live now key e = elim (elapsed_secs now e.timestamp) [
  | none ↦ false
  | some secs ↦ leb secs cache_ttl_secs
]

unfoldable pub add_child : Text → Text → Dict (List Text) → Dict (List Text)
unfolding lookup insert
add_child parent_id id index = elim (lookup parent_id index) [
  | none ↦ insert parent_id (id ∷ []) index
  | some children ↦ insert parent_id (children ++ id ∷ []) index
]

unfoldable pub index_node : WorkflowyNode → Dict (List Text) → Dict (List Text)
unfolding add_child
index_node node index = elim node.parent_id [
  | none ↦ index
  | some parent_id ↦ add_child parent_id node.id index
]

unfoldable pub insert_node : ℕ → WorkflowyNode → NodeCache → NodeCache
unfolding index_node insert
insert_node now node c = record c {
  children_index = index_node node c.children_index;
  cache = insert node.id record { node = node; timestamp = now } c.cache;
}

unfoldable pub insert_batch : ℕ → List WorkflowyNode → NodeCache → NodeCache
unfolding insert_node
insert_batch now [] c = c
insert_batch now (node ∷ nodes) c = insert_batch now nodes (insert_node now node c)

unfoldable pub get : ℕ → Text → NodeCache → Option WorkflowyNode
unfolding lookup is_expired
get now id c = elim (lookup id c.cache) [
  | none ↦ none
  | some e ↦ if is_expired now e.timestamp then none else some e.node
]

unfoldable pub children_listing : ℕ → Text → NodeCache → Option (List WorkflowyNode)
unfolding lookup is_expired
children_listing now parent_key c = elim (lookup parent_key c.listings) [
  | none ↦ none
  | some e ↦ if is_expired now e.timestamp then none else some e.children
]

unfoldable pub add_members : Text → List WorkflowyNode → Dict Text → Dict Text
unfolding insert
add_members parent_key [] member = member
add_members parent_key (child ∷ children) member =
    add_members parent_key children (insert child.id parent_key member)

-- Room for one more listing: the purge, and if that is not enough the whole map goes.
unfoldable pub make_room : ℕ → NodeCache → NodeCache
unfolding retain is_live
make_room now c =
    let kept = retain (is_live now) c.listings in
    if leb max_cached_listings (length c.listings)
    then if leb max_cached_listings (length kept)
      then record c { listings = []; member_of = [] }
      else record c { listings = kept }
    else c

unfoldable pub insert_children_listing : ℕ → Text → List WorkflowyNode → NodeCache → NodeCache
unfolding make_room insert add_members
insert_children_listing now parent_key children c =
    let room = make_room now c in
    record room {
      listings = insert parent_key record { children = children; timestamp = now } room.listings;
      member_of = add_members parent_key children room.member_of;
    }

unfoldable pub invalidate_listing : Text → NodeCache → NodeCache
unfolding erase
invalidate_listing parent_key c = record c { listings = erase parent_key c.listings }

unfoldable pub invalidate_listing_containing : Text → NodeCache → NodeCache
unfolding lookup erase
invalidate_listing_containing id c = elim (lookup id c.member_of) [
  | none ↦ c
  | some key ↦ record c { listings = erase key c.listings }
]

unfoldable pub invalidate_node : Text → NodeCache → NodeCache
unfolding erase invalidate_listing_containing
invalidate_node id c =
    invalidate_listing_containing id
      (record c { cache = erase id c.cache; listings = erase id c.listings })

-- `extend(children)`
unfoldable pub push_top : List Text → List Text → List Text
push_top [] stack = stack
push_top (id ∷ ids) stack = push_top ids (id ∷ stack)

-- The `while` loop over a stack, its top last in the code and first here; none when the fuel is used up,
-- as on a cycle in the index, where the code does not end.
unfoldable pub drop_below : ℕ → List Text → NodeCache → Option NodeCache
unfolding lookup erase push_top
drop_below fuel [] c = some c
drop_below zero (id ∷ stack) c = none
drop_below (suc fuel) (id ∷ stack) c =
    let dropped = record c { cache = erase id c.cache; listings = erase id c.listings } in
    elim (lookup id c.children_index) [
      | none ↦ drop_below fuel stack dropped
      | some children ↦ drop_below fuel (push_top children stack) dropped
    ]

unfoldable pub invalidate_subtree : ℕ → Text → NodeCache → Option NodeCache
unfolding drop_below invalidate_listing_containing
invalidate_subtree fuel root_id c = elim (drop_below fuel (root_id ∷ []) c) [
  | none ↦ none
  | some dropped ↦ some (invalidate_listing_containing root_id dropped)
]

-- An entry from the future is left out.
abbrev pub shown : ℕ → CacheEntry → List WorkflowyNode
unfolding elapsed_secs
shown now e = elim (elapsed_secs now e.timestamp) [
  | none ↦ []
  | some secs ↦ if leb secs cache_ttl_secs then e.node ∷ [] else []
]

unfoldable pub get_all : ℕ → Dict CacheEntry → List WorkflowyNode
unfolding elapsed_secs
get_all now [] = []
get_all now ((id, e) ∷ cache) = shown now e ++ get_all now cache

unfoldable pub clear : NodeCache → NodeCache
clear c = new_cache

unfoldable pub index_nodes : List WorkflowyNode → Dict (List Text) → Dict (List Text)
unfolding index_node
index_nodes [] index = index
index_nodes (node ∷ nodes) index = index_nodes nodes (index_node node index)

unfoldable pub rebuild_children_index : List WorkflowyNode → NodeCache → NodeCache
unfolding index_nodes
rebuild_children_index nodes c = record c { children_index = index_nodes nodes [] }
