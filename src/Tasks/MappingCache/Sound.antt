-- ===== src/Tasks/MappingCache/Sound.antt =====
-- The cache answers with nothing but the last publication (db/task_mapping_cache.go).
use relay_gateway.Common.Base.{
  ℕ, ◌+◌, ◌<◌, ◌≡◌, refl, ◌∙◌, inl, inr, Option, none, some, List, [], ◌∷◌, arith, Bool-cases,
  Option-cases,
}
use relay_gateway.Common.Tables.{first_where}
use relay_gateway.Common.Text.{Text, text_eq_iff}
use relay_gateway.Tasks.MappingCache.{
  TaskMapping, CacheEntry, MappingCache, new_mapping_cache, is_fresh, entry_of, hit_or_expire,
  purge, publish, get, clear, invalidate_channel, CacheOp, publishes, gets, purges, clears,
  invalidates, apply_op, run_ops,
}
use relay_gateway.Tasks.MappingCache.Latest.{remember_all, run_ops-Agrees, Latest, Agrees}

Agrees-found :
    (l : Latest) (id : Text) (es : List CacheEntry) (e : CacheEntry)
    → Agrees l es
    → first_where (entry_of id) es ≡ some e
    → l id ≡ some e
unfolding first_where
Agrees-found l id [] e a f = cc
Agrees-found l id (x ∷ es) e a f = elim (Bool-cases (entry_of id x)) [
  | inr q ↦ Agrees-found l id es e a.1 (rw q at f)
  | inl q ↦ rw ((text_eq_iff x.mapping.task_id id).0 q) at (a.0 ∙ (rw q at f))
]

get-ttl : (id : Text) (now : ℕ) (c : MappingCache) → (get id now c).0.ttl ≡ c.ttl
unfolding get
get-ttl id now c = go (first_where (entry_of id) c.order)
  where
    go : (o : Option CacheEntry) → (hit_or_expire id now c o).0.ttl ≡ c.ttl
    go none = refl
    go (some e) = elim (Bool-cases (is_fresh c.ttl now e)) [ inl q ↦ rw q refl | inr q ↦ rw q refl ]

apply_op-ttl : (c : MappingCache) (op : CacheOp) → (apply_op c op).ttl ≡ c.ttl
unfolding apply_op publish purge clear invalidate_channel
apply_op-ttl c (publishes mapping now) = refl
apply_op-ttl c (gets id now) = get-ttl id now c
apply_op-ttl c (purges now) = refl
apply_op-ttl c clears = refl
apply_op-ttl c (invalidates channel) = refl

run_ops-ttl : (c : MappingCache) (ops : List CacheOp) → (run_ops c ops).ttl ≡ c.ttl
unfolding run_ops
run_ops-ttl c [] = refl
run_ops-ttl c (op ∷ ops) = run_ops-ttl (apply_op c op) ops ∙ apply_op-ttl c op

-- An answer of the cache, after any sequence of operations at any times, is the mapping that was published
-- last for the id, was not invalidated or cleared since, and is younger than the time to live.
pub run_ops-get :
    (most ttl : ℕ) (ops : List CacheOp) (id : Text) (now : ℕ) (mapping : TaskMapping)
    → (get id now (run_ops (new_mapping_cache most ttl) ops)).1 ≡ some mapping
    → (e : CacheEntry) × (remember_all (λ _. none) ops id ≡ some e)
      × (e.mapping ≡ mapping)
      × (now < e.cached_at + ttl)
unfolding get
run_ops-get most ttl ops id now mapping h =
    let c = run_ops (new_mapping_cache most ttl) ops in
    elim (Option-cases (first_where (entry_of id) c.order)) [
      | inl f ↦ ground (arith, h, f)
      | inr (e, f) ↦
          let same : e.mapping ≡ mapping = ground (arith, h, f) in
          let young : now < e.cached_at + c.ttl = ground (arith, h, f) in
          (
            e,
            Agrees-found (remember_all (λ _. none) ops) id c.order e
                (run_ops-Agrees (λ _. none) (new_mapping_cache most ttl) ops tt) f,
            same,
            rw (run_ops-ttl (new_mapping_cache most ttl) ops) at young,
          )
    ]
