-- ===== src/Tasks/MappingCache.antt =====
-- The cache of task mappings (db/task_mapping_cache.go; `TaskMapping` of db/db.go). The list of elements,
-- oldest publication first, is the state: the map from ids to elements holds the same elements, and every
-- operation changes both, so an element is removed by its id. The worker that purges on a timer is a
-- caller like the others.
pub mod Latest
pub mod Sound
pub mod Tests
use relay_gateway.Common.Base.{
  ℕ, ◌+◌, Bool, true, false, Option, none, some, List, [], ◌∷◌, ◌++◌, ltb, leb, ◌==◌, if◌then◌else◌,
}
use relay_gateway.Common.Lists.{length}
use relay_gateway.Common.Tables.{first_where, delete_where}
use relay_gateway.Common.Text.{Text, text_eq}

pub record TaskMapping : Type 0 where
  pub task_id : Text
  pub channel_id : Text
  pub origin_request_id : Text
  pub task_kind : Text
  pub task_alias : Text
  pub created_at : ℕ

-- `videoTaskCacheEntry`.
pub record CacheEntry : Type 0 where
  pub mapping : TaskMapping
  pub cached_at : ℕ

-- A maximum that is not positive is 0.
pub record MappingCache : Type 0 where
  pub order : List CacheEntry
  pub max_entries : ℕ
  pub ttl : ℕ

abbrev pub new_mapping_cache : ℕ → ℕ → MappingCache
new_mapping_cache max_entries ttl = record { order = []; max_entries = max_entries; ttl = ttl }

-- `now.Sub(cachedAt) < ttl`.
abbrev pub is_fresh : ℕ → ℕ → CacheEntry → Bool
is_fresh ttl now e = ltb now (e.cached_at + ttl)

abbrev pub entry_of : Text → CacheEntry → Bool
entry_of id e = text_eq e.mapping.task_id id

-- `purgeLocked`: from the front up to the first entry that is fresh.
unfoldable pub purge_order : ℕ → ℕ → List CacheEntry → List CacheEntry
purge_order ttl now [] = []
purge_order ttl now (e ∷ es) =
    let rest = purge_order ttl now es in if is_fresh ttl now e then e ∷ es else rest

unfoldable pub purge : ℕ → MappingCache → MappingCache
purge now c = record c { order = purge_order c.ttl now c.order }

-- The oldest entries go until there is room for one more.
unfoldable pub make_room : ℕ → List CacheEntry → List CacheEntry
make_room most [] = []
make_room most (e ∷ es) =
    let rest = make_room most es in if leb most (length (e ∷ es)) then rest else e ∷ es

abbrev pub insert_entry : CacheEntry → ℕ → Option CacheEntry → List CacheEntry → List CacheEntry
insert_entry e most (some old) order = delete_where (entry_of e.mapping.task_id) order ++ e ∷ []
insert_entry e most none order = if most == 0 then order else make_room most order ++ e ∷ []

unfoldable pub publish : TaskMapping → ℕ → MappingCache → MappingCache
publish mapping now c =
    let kept = purge_order c.ttl now c.order in
    record c {
      order =
          insert_entry (record { mapping = mapping; cached_at = now }) c.max_entries
            (first_where (entry_of mapping.task_id) kept) kept;
    }

abbrev pub hit_or_expire :
    Text → ℕ → MappingCache → Option CacheEntry → MappingCache × Option TaskMapping
hit_or_expire id now c none = (c, none)
hit_or_expire id now c (some e) =
    if is_fresh c.ttl now e
    then (c, some e.mapping)
    else (record c { order = delete_where (entry_of id) c.order }, none)

unfoldable pub get : Text → ℕ → MappingCache → MappingCache × Option TaskMapping
get id now c = hit_or_expire id now c (first_where (entry_of id) c.order)

unfoldable pub clear : MappingCache → MappingCache
clear c = record c { order = [] }

unfoldable pub invalidate_channel : Text → MappingCache → MappingCache
invalidate_channel channel c = record c {
  order = delete_where (λ e. text_eq e.mapping.channel_id channel) c.order;
}

pub data CacheOp : Type 0 where
  publishes : TaskMapping → ℕ → CacheOp
  gets : Text → ℕ → CacheOp
  purges : ℕ → CacheOp
  clears : CacheOp
  invalidates : Text → CacheOp

unfoldable pub apply_op : MappingCache → CacheOp → MappingCache
apply_op c (publishes mapping now) = publish mapping now c
apply_op c (gets id now) = (get id now c).0
apply_op c (purges now) = purge now c
apply_op c clears = clear c
apply_op c (invalidates channel) = invalidate_channel channel c

unfoldable pub run_ops : MappingCache → List CacheOp → MappingCache
run_ops c [] = c
run_ops c (op ∷ ops) = run_ops (apply_op c op) ops
