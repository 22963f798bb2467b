-- ===== src/Dispatch/Pools.antt =====
-- The pools of scheduling indices (service/dispatcher.go, `nextSchedulingIndex`). SHA-256 over the
-- encoded channels is the parameter `digest`. The code evicts the pool under the zero key when no pool was
-- last used before call 2^64 - 1; the model evicts none then.
pub mod Turns
pub mod Tests
use relay_gateway.Common.Base.{
  ℕ, ◌+◌, ◌-◌, ◌^◌, Bool, true, false, Option, none, some, List, [], ◌∷◌, map, ltb, leb,
  if◌then◌else◌, u64,
}
use relay_gateway.Common.Lists.{length}
use relay_gateway.Common.Text.{Text, text_eq}
use relay_gateway.Dispatch.Channel.{UpstreamChannel, find_key}
use relay_gateway.Dispatch.Schedule.{clamp_weight}

pub record SchedulingPool : Type 0 where
  pub next_index : ℕ
  pub last_used : ℕ

-- `schedulingPools` and `schedulingClock`.
pub record Pools : Type 0 where
  pub pools : List (Text × SchedulingPool)
  pub clock : ℕ

abbrev pub max_scheduling_pools : ℕ
max_scheduling_pools = 1024

-- `clearSchedulingPools`.
unfoldable pub clear_scheduling_pools : Pools → Pools
clear_scheduling_pools d = record { pools = []; clock = 0 }

-- The key of a set of channels: their ids and weights, in order.
unfoldable pub pool_key : (List (Text × ℕ) → Text) → List UpstreamChannel → Text
pool_key digest chs = digest (map (λ ch. (ch.id, clamp_weight ch.weight)) chs)

-- The scan for the pool that was not used for the longest time.
unfoldable pub oldest_pool : List (Text × SchedulingPool) → Option Text → ℕ → Option Text
oldest_pool [] oldest use_ = oldest
oldest_pool ((k, p) ∷ rest) oldest use_ =
    oldest_pool rest (if ltb p.last_used use_ then some k else oldest)
      (if ltb p.last_used use_ then p.last_used else use_)

unfoldable pub delete_pool : Text → List (Text × SchedulingPool) → List (Text × SchedulingPool)
delete_pool k [] = []
delete_pool k ((j, p) ∷ rest) =
    let rest' = delete_pool k rest in if text_eq k j then rest' else (j, p) ∷ rest'

abbrev pub delete_oldest : Option Text → List (Text × SchedulingPool) → List (Text × SchedulingPool)
delete_oldest none pools = pools
delete_oldest (some k) pools = delete_pool k pools

unfoldable pub evict_pool : List (Text × SchedulingPool) → List (Text × SchedulingPool)
evict_pool pools =
    if leb max_scheduling_pools (length pools)
    then delete_oldest (oldest_pool pools none (2 ^ 64 - 1)) pools
    else pools

-- Storing through the pointer to a pool.
unfoldable pub put_pool :
    Text → SchedulingPool → List (Text × SchedulingPool) → List (Text × SchedulingPool)
put_pool k p [] = []
put_pool k p ((j, q) ∷ rest) =
    let rest' = put_pool k p rest in if text_eq k j then (j, p) ∷ rest else (j, q) ∷ rest'

-- A use of the pool `p`, which is in the map under `k`.
unfoldable pub use_pool : Text → SchedulingPool → Pools → Pools × ℕ
use_pool k p d =
    let clock' = u64 (d.clock + 1) in
    let p' : SchedulingPool = record { next_index = u64 (p.next_index + 1); last_used = clock' } in
    (record { pools = put_pool k p' d.pools; clock = clock' }, p.next_index)

abbrev pub new_pool : SchedulingPool
new_pool = record { next_index = 0; last_used = 0 }

abbrev pub use_or_create : Text → Option SchedulingPool → Pools → Pools × ℕ
use_or_create k (some p) d = use_pool k p d
use_or_create k none d =
    use_pool k new_pool (record d { pools = (k, new_pool) ∷ evict_pool d.pools })

unfoldable pub next_scheduling_index :
    (List (Text × ℕ) → Text) → List UpstreamChannel → Pools → Pools × ℕ
next_scheduling_index digest chs d =
    let k = pool_key digest chs in
    if ltb (length chs) 2 then (d, 0) else use_or_create k (find_key k d.pools) d
