-- ===== src/Dispatch/Schedule.antt =====
-- The order of the healthy channels of one priority (service/dispatcher.go,
-- `scheduleHealthyChannels`): rotation for equal weights, else smooth weighted round robin.
pub mod Rotation
pub mod Rounds
pub mod Fairness
pub mod Values
pub mod Cycle
pub mod Tests
use relay_gateway.Common.Base.{
  ℕ, zero, suc, ◌+◌, ◌-◌, ◌%◌, Bool, true, false, not, ◌&&◌, Option, none, some, List, [], ◌∷◌,
  ◌++◌, map, ltb, ◌==◌, if◌then◌else◌,
}
use relay_gateway.Common.Lists.{length, get_elem?, get_or, set, replicate}
use relay_gateway.Common.Int.{ℤ, pos, negsuc, pos_part, ◌+ℤ◌, ◌-ℤ◌, ltb_ℤ}
use relay_gateway.Dispatch.Channel.{UpstreamChannel}

-- A weight of zero or less counts as one.
unfoldable pub unit_weight : ℤ → ℕ
unit_weight w = if ltb_ℤ (pos 0) w then pos_part w else 1

unfoldable pub clamp_weight : ℤ → ℕ
unfolding unit_weight
clamp_weight w = let u = unit_weight w in if ltb 100 u then 100 else u

unfoldable pub same_weight : ℕ → List UpstreamChannel → Bool
unfolding unit_weight
same_weight first [] = true
same_weight first (ch ∷ rest) = unit_weight ch.weight == first && same_weight first rest

-- The loop over `i` of one round: add the weights, and find the first largest sum.
unfoldable pub round_loop : ℕ → List ℕ → List ℤ → ℕ → ℤ → List ℤ × ℕ
round_loop i (w ∷ ws) (c ∷ cs) max_idx max_val =
    let c' = c +ℤ pos w in
    let larger = ltb_ℤ max_val c' in
    let (cs', idx) =
      round_loop (i + 1) ws cs (if larger then i else max_idx) (if larger then c' else max_val) in
    (c' ∷ cs', idx)
round_loop i _ cs max_idx max_val = (cs, max_idx)

unfoldable pub take_at : ℕ → ℤ → List ℤ → List ℤ
take_at i t [] = []
take_at zero t (c ∷ cs) = (c -ℤ t) ∷ cs
take_at (suc i) t (c ∷ cs) = c ∷ take_at i t cs

-- `-1 << 30`.
abbrev pub lowest : ℤ
lowest = negsuc 1073741823

unfoldable pub round : ℕ → List ℕ → List ℤ → List ℤ × ℕ
unfolding round_loop take_at
round total ws cs =
    let (cs', idx) = round_loop 0 ws cs 0 lowest in (take_at idx (pos total) cs', idx)

-- The indices that `fuel` rounds choose.
unfoldable pub rounds : ℕ → ℕ → List ℕ → List ℤ → List ℕ
unfolding round
rounds zero total ws cs = []
rounds (suc fuel) total ws cs = let (cs', idx) = round total ws cs in idx ∷ rounds fuel total ws cs'

unfoldable pub sum : List ℕ → ℕ
sum [] = 0
sum (w ∷ ws) = w + sum ws

unfoldable pub weights : List UpstreamChannel → List ℕ
unfolding clamp_weight
weights chs = map (λ ch. clamp_weight ch.weight) chs

-- The table `schedule` over one period.
unfoldable pub schedule_table : List ℕ → List ℕ
unfolding rounds sum
schedule_table ws = let total = sum ws in rounds total total ws (replicate (length ws) (pos 0))

-- `healthy[start % k], healthy[(start + 1) % k], …`, `n` of them.
unfoldable pub ring {ℓ} : {A : Type ℓ} → ℕ → ℕ → List A → List A
ring zero start xs = []
ring (suc n) start xs =
    let rest = ring n (start + 1) xs in
    elim (get_elem? xs (start % length xs)) [ none ↦ rest | some x ↦ x ∷ rest ]

-- The index of the first channel, over the weights and `rrIndex`.
unfoldable pub primary_index : List UpstreamChannel → ℕ → ℕ
unfolding schedule_table weights
primary_index chs rr_index =
    let table = schedule_table (weights chs) in get_or table (rr_index % sum (weights chs)) 0

-- The place of the first channel; a single channel is not scheduled.
unfoldable pub start_index : List UpstreamChannel → ℕ → ℕ
unfolding primary_index same_weight unit_weight
start_index [] rr_index = 0
start_index (ch ∷ []) rr_index = 0
start_index (ch ∷ next ∷ rest) rr_index =
    let healthy = ch ∷ next ∷ rest in
    if same_weight (unit_weight ch.weight) (next ∷ rest)
    then rr_index % length healthy
    else primary_index healthy rr_index

unfoldable pub schedule_healthy : List UpstreamChannel → ℕ → List UpstreamChannel
unfolding start_index ring
schedule_healthy [] rr_index = []
schedule_healthy (ch ∷ []) rr_index = ch ∷ []
schedule_healthy (ch ∷ next ∷ rest) rr_index =
    let healthy = ch ∷ next ∷ rest in ring (length healthy) (start_index healthy rr_index) healthy
