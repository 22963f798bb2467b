-- ===== src/Tasks/MappingCache/Tests.antt =====
-- The cache of task mappings at a concrete run (db/task_mapping_cache.go).
use relay_gateway.Common.Base.{◌+◌, ◌<◌, ◌≡◌, refl, none, some, List, [], ◌∷◌}
use relay_gateway.Common.Tables.{first_where, delete_where}
use relay_gateway.Common.Text.{Text, codes, text_eq}
use relay_gateway.Tasks.MappingCache.{
  TaskMapping, CacheEntry, new_mapping_cache, purge_order, make_room, publish, get,
  invalidate_channel, CacheOp, publishes, invalidates, apply_op, run_ops,
}
use relay_gateway.Tasks.MappingCache.Sound.{run_ops-get}
use relay_gateway.Tasks.MappingCache.Latest.{remember_all}

abbrev mapping : Text → Text → TaskMapping
mapping id channel = record {
  task_id = id;
  channel_id = channel;
  origin_request_id = [];
  task_kind = codes "video";
  task_alias = [];
  created_at = 1;
}

-- Room for two: "a" is published again, so that "b" goes first.
abbrev history : List CacheOp
history =
    publishes (mapping (codes "a") (codes "c1")) 10
    ∷ publishes (mapping (codes "b") (codes "c1")) 11
    ∷ publishes (mapping (codes "a") (codes "c2")) 12
    ∷ publishes (mapping (codes "d") (codes "c3")) 13
    ∷ invalidates (codes "c3")
    ∷ []

hit :
    (get (codes "a") 20 (run_ops (new_mapping_cache 2 100) history)).1
    ≡ some (mapping (codes "a") (codes "c2"))
unfolding get run_ops apply_op publish purge_order make_room invalidate_channel first_where
    delete_where text_eq
hit = refl

evicted : (get (codes "b") 20 (run_ops (new_mapping_cache 2 100) history)).1 ≡ none
unfolding get run_ops apply_op publish purge_order make_room invalidate_channel first_where
    delete_where text_eq
evicted = refl

too_old : (get (codes "a") 112 (run_ops (new_mapping_cache 2 100) history)).1 ≡ none
unfolding get run_ops apply_op publish purge_order make_room invalidate_channel first_where
    delete_where text_eq
too_old = refl

run_ops-get_example :
    (e : CacheEntry) × (remember_all (λ _. none) history (codes "a") ≡ some e)
    × (e.mapping ≡ mapping (codes "a") (codes "c2"))
    × (20 < e.cached_at + 100)
run_ops-get_example =
    run_ops-get 2 100 history (codes "a") 20 (mapping (codes "a") (codes "c2")) hit
