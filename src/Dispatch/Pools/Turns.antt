-- ===== src/Dispatch/Pools/Turns.antt =====
-- The turns that a pool of channels takes (service/dispatcher.go, `nextSchedulingIndex`).
use relay_gateway.Common.Base.{
  ℕ, ◌+◌, ◌≤◌, ◌≡◌, refl, ◌∙◌, inl, inr, false, Option, none, some, List, [], ◌∷◌, arith, ltb, u64,
  Bool-cases,
}
use relay_gateway.Common.Lists.{length}
use relay_gateway.Common.Text.{Text, text_eq, text_eq_refl}
use relay_gateway.Dispatch.Channel.{UpstreamChannel, find_key}
use relay_gateway.Dispatch.Pools.{
  SchedulingPool, Pools, pool_key, put_pool, use_pool, new_pool, use_or_create,
  next_scheduling_index,
}

find_key-put_pool :
    (k : Text) (p q : SchedulingPool) (m : List (Text × SchedulingPool))
    → find_key k m ≡ some q
    → find_key k (put_pool k p m) ≡ some p
unfolding find_key put_pool
find_key-put_pool k p q [] e = cc
find_key-put_pool k p q ((j, r) ∷ m) e = elim (Bool-cases (text_eq k j)) [
  | inl h ↦ rw (h, h) refl
  | inr h ↦ rw (h, h) (find_key-put_pool k p q m (rw h at e))
]

-- The pool after a use.
used-find_key :
    (k : Text) (p : SchedulingPool) (d : Pools)
    → find_key k d.pools ≡ some p
    → (q : SchedulingPool) × (find_key k (use_pool k p d).0.pools ≡ some q)
      × (q.next_index ≡ u64 ((use_pool k p d).1 + 1))
unfolding use_pool
used-find_key k p d e = (_, find_key-put_pool k _ p d.pools e, refl)

found_new :
    (k : Text) (m : List (Text × SchedulingPool)) → find_key k ((k, new_pool) ∷ m) ≡ some new_pool
unfolding find_key
found_new k m = rw (text_eq_refl k) refl

use_or_create-find_key :
    (k : Text) (o : Option SchedulingPool) (d : Pools)
    → find_key k d.pools ≡ o
    → (q : SchedulingPool) × (find_key k (use_or_create k o d).0.pools ≡ some q)
      × (q.next_index ≡ u64 ((use_or_create k o d).1 + 1))
use_or_create-find_key k (some p) d e = used-find_key k p d e
use_or_create-find_key k none d e = used-find_key k new_pool _ (found_new k _)

use_found :
    (k : Text) (o : Option SchedulingPool) (q : SchedulingPool) (d : Pools)
    → o ≡ some q
    → (use_or_create k o d).1 ≡ q.next_index
unfolding use_pool
use_found k o q d e = rw e refl

-- Two calls in a row for the same two or more channels give an index and its successor, modulo 2^64,
-- whatever pools there are and whether or not the first call has to make one.
pub next_scheduling_index-succ :
    (digest : List (Text × ℕ) → Text) (chs : List UpstreamChannel) (d : Pools)
    → 2 ≤ length chs
    → let (d', i) = next_scheduling_index digest chs d in
      (next_scheduling_index digest chs d').1 ≡ u64 (i + 1)
unfolding next_scheduling_index
next_scheduling_index-succ digest chs d h =
    let k = pool_key digest chs in
    let many : ltb (length chs) 2 ≡ false = ground (arith, h) in
    let (q, found, next) = use_or_create-find_key k (find_key k d.pools) d refl in
    rw many (use_found k _ q _ found ∙ next)
