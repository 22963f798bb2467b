-- ===== src/Tasks/MappingCache/Latest.antt =====
-- The last publications, which the entries of the cache agree with (db/task_mapping_cache.go).
use relay_gateway.Common.Base.{
  ℕ, ◌≡◌, refl, ◌∙◌, inl, inr, Bool, false, Option, none, some, List, [], ◌∷◌, ◌++◌, leb, ◌==◌,
  if◌then◌else◌, arith, Bool-cases, Option-cases,
}
use relay_gateway.Common.Lists.{length}
use relay_gateway.Common.Tables.{first_where, delete_where}
use relay_gateway.Common.Text.{Text, text_eq, text_eq_iff, text_eq_refl}
use relay_gateway.Tasks.MappingCache.{
  TaskMapping, CacheEntry, MappingCache, is_fresh, entry_of, purge_order, purge, make_room, publish,
  get, clear, invalidate_channel, CacheOp, publishes, gets, purges, clears, invalidates, apply_op,
  run_ops,
}

-- What was published last for each id, without a bound and without an age; only `clear` and the
-- invalidation of a channel forget.
abbrev pub Latest : Type 0
Latest = Text → Option CacheEntry

abbrev pub forget : Text → Option CacheEntry → Option CacheEntry
forget channel none = none
forget channel (some e) = if text_eq e.mapping.channel_id channel then none else some e

unfoldable pub remember : Latest → CacheOp → Latest
remember l (publishes mapping now) = λ id.
    if text_eq mapping.task_id id
    then some (record { mapping = mapping; cached_at = now })
    else l id
remember l (gets id now) = l
remember l (purges now) = l
remember l clears = λ id. none
remember l (invalidates channel) = λ id. forget channel (l id)

unfoldable pub remember_all : Latest → List CacheOp → Latest
remember_all l [] = l
remember_all l (op ∷ ops) = remember_all (remember l op) ops

-- Every entry is the last publication for its id.
abbrev pub Agrees : Latest → List CacheEntry → Type 0
Agrees l [] = Unit {0}
Agrees l (e ∷ es) = (l e.mapping.task_id ≡ some e) × Agrees l es

purge_order-Agrees :
    (l : Latest) (ttl now : ℕ) (es : List CacheEntry)
    → Agrees l es
    → Agrees l (purge_order ttl now es)
unfolding purge_order
purge_order-Agrees l ttl now [] a = tt
purge_order-Agrees l ttl now (e ∷ es) a = elim (Bool-cases (is_fresh ttl now e)) [
  | inl f ↦ rw f a
  | inr f ↦ rw f (purge_order-Agrees l ttl now es a.1)
]

make_room-Agrees :
    (l : Latest) (most : ℕ) (es : List CacheEntry) → Agrees l es → Agrees l (make_room most es)
unfolding make_room
make_room-Agrees l most [] a = tt
make_room-Agrees l most (e ∷ es) a = elim (Bool-cases (leb most (length (e ∷ es)))) [
  | inl f ↦ rw f (make_room-Agrees l most es a.1)
  | inr f ↦ rw f a
]

-- A change of what is remembered that leaves the entries which are kept.
delete_where-Agrees :
    (l l' : Latest) (q : CacheEntry → Bool) (es : List CacheEntry)
    → ((e : CacheEntry)
        → q e ≡ false
        → l e.mapping.task_id ≡ some e
        → l' e.mapping.task_id ≡ some e)
    → Agrees l es
    → Agrees l' (delete_where q es)
unfolding delete_where
delete_where-Agrees l l' q [] h a = tt
delete_where-Agrees l l' q (e ∷ es) h a = elim (Bool-cases (q e)) [
  | inl f ↦ rw f (delete_where-Agrees l l' q es h a.1)
  | inr f ↦ rw f (h e f a.0, delete_where-Agrees l l' q es h a.1)
]

append-Agrees :
    (l : Latest) (es : List CacheEntry) (e : CacheEntry)
    → Agrees l es
    → l e.mapping.task_id ≡ some e
    → Agrees l (es ++ e ∷ [])
append-Agrees l [] e a h = (h, tt)
append-Agrees l (x ∷ es) e a h = (a.0, append-Agrees l es e a.1 h)

-- Where no entry has the id, another publication of it changes nothing.
absent-Agrees :
    (l l' : Latest) (id : Text) (es : List CacheEntry)
    → ((j : Text) → text_eq id j ≡ false → l' j ≡ l j)
    → first_where (entry_of id) es ≡ none
    → Agrees l es
    → Agrees l' es
unfolding first_where
absent-Agrees l l' id [] h f a = tt
absent-Agrees l l' id (e ∷ es) h f a = elim (Bool-cases (entry_of id e)) [
  | inl q ↦ ground (arith, f, q)
  | inr q ↦
      let other : text_eq id e.mapping.task_id ≡ false =
        ground (arith, q, text_eq_iff id e.mapping.task_id, text_eq_iff e.mapping.task_id id) in
      (h e.mapping.task_id other ∙ a.0, absent-Agrees l l' id es h (ground (arith, f, q)) a.1)
]

publish-Agrees :
    (l : Latest) (mapping : TaskMapping) (now : ℕ) (c : MappingCache)
    → Agrees l c.order
    → Agrees (remember l (publishes mapping now)) (publish mapping now c).order
unfolding publish remember
publish-Agrees l mapping now c a =
    elim (Option-cases (first_where (entry_of mapping.task_id) kept)) [
      | inr (old, f) ↦ rw f (
          append-Agrees l' _ entry
            (delete_where-Agrees l l' (entry_of mapping.task_id) kept
              (λ e q h. unchanged e.mapping.task_id (differs e q) ∙ h) here)
            own)
      | inl f ↦ rw f (elim (Bool-cases (c.max_entries == 0)) [
        | inl z ↦ rw z (absent-Agrees l l' mapping.task_id kept unchanged f here)
        | inr z ↦ rw z (
            append-Agrees l' _ entry
              (make_room-Agrees l' c.max_entries kept
                (absent-Agrees l l' mapping.task_id kept unchanged f here))
              own)
      ])
    ]
  where
    kept : List CacheEntry
    kept = purge_order c.ttl now c.order

    entry : CacheEntry
    entry = record { mapping = mapping; cached_at = now }

    l' : Latest
    l' = λ id. if text_eq mapping.task_id id then some entry else l id

    here : Agrees l kept
    here = purge_order-Agrees l c.ttl now c.order a

    own : l' mapping.task_id ≡ some entry
    own = rw (text_eq_refl mapping.task_id) refl

    unchanged : (j : Text) → text_eq mapping.task_id j ≡ false → l' j ≡ l j
    unchanged j d = rw d refl

    differs :
        (e : CacheEntry)
        → entry_of mapping.task_id e ≡ false
        → text_eq mapping.task_id e.mapping.task_id ≡ false
    differs e q = ground (
      arith,
      q,
      text_eq_iff mapping.task_id e.mapping.task_id,
      text_eq_iff e.mapping.task_id mapping.task_id,
    )

get-Agrees :
    (l : Latest) (id : Text) (now : ℕ) (c : MappingCache)
    → Agrees l c.order
    → Agrees l (get id now c).0.order
unfolding get
get-Agrees l id now c a = elim (Option-cases (first_where (entry_of id) c.order)) [
  | inl f ↦ rw f a
  | inr (e, f) ↦ rw f (elim (Bool-cases (is_fresh c.ttl now e)) [
    | inl q ↦ rw q a
    | inr q ↦ rw q (delete_where-Agrees l l (entry_of id) c.order (λ x _ h. h) a)
  ])
]

apply_op-Agrees :
    (l : Latest) (c : MappingCache) (op : CacheOp)
    → Agrees l c.order
    → Agrees (remember l op) (apply_op c op).order
unfolding apply_op remember purge clear invalidate_channel
apply_op-Agrees l c (publishes mapping now) a = publish-Agrees l mapping now c a
apply_op-Agrees l c (gets id now) a = get-Agrees l id now c a
apply_op-Agrees l c (purges now) a = purge_order-Agrees l c.ttl now c.order a
apply_op-Agrees l c clears a = tt
apply_op-Agrees l c (invalidates channel) a =
    delete_where-Agrees l _ _ c.order (λ e q h. rw h (rw q refl)) a

pub run_ops-Agrees :
    (l : Latest) (c : MappingCache) (ops : List CacheOp)
    → Agrees l c.order
    → Agrees (remember_all l ops) (run_ops c ops).order
unfolding run_ops remember_all
run_ops-Agrees l c [] a = a
run_ops-Agrees l c (op ∷ ops) a =
    run_ops-Agrees (remember l op) (apply_op c op) ops (apply_op-Agrees l c op a)
