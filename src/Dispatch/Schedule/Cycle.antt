-- ===== src/Dispatch/Schedule/Cycle.antt =====
-- Which channel comes first over one cycle of the counter (service/dispatcher.go,
-- `scheduleHealthyChannels`).
use native.Mathlib.Nat.{mod-eq_of_lt, mod-lt, add-mod_right}
use relay_gateway.Common.Base.{
  ℕ, zero, suc, ◌+◌, ◌*◌, ◌%◌, ◌≤◌, ◌<◌, ◌≡◌, refl, sym, ◌∙◌, ap, ap₂, inl, inr, true, false, List,
  [], ◌∷◌, ltb, ◌==◌, if◌then◌else◌, arith, Bool-cases,
}
use relay_gateway.Common.Lists.{length, get_elem?, get_or, replicate, length-map}
use relay_gateway.Dispatch.Channel.{UpstreamChannel}
use relay_gateway.Dispatch.Schedule.{
  sum, weights, schedule_table, primary_index, start_index, schedule_healthy, same_weight,
  unit_weight, clamp_weight, ring,
}
use relay_gateway.Dispatch.Schedule.Rotation.{get_elem?-some, ring-suc}
use relay_gateway.Dispatch.Schedule.Fairness.{
  count, count-schedule_table, length-schedule_table, weights_pos,
}
use relay_gateway.Dispatch.Schedule.Values.{
  values, count-period, count-periods, count-listed, count-identity,
}

-- The weighted order.
primary_index-period :
    (chs : List UpstreamChannel) (x : ℕ)
    → primary_index chs (x + sum (weights chs)) ≡ primary_index chs x
unfolding primary_index
primary_index-period chs x =
    ap (λ r. get_or (schedule_table (weights chs)) r 0) (add-mod_right x (sum (weights chs)))

count-primary_index :
    (ch : UpstreamChannel) (rest : List UpstreamChannel) (base i : ℕ)
    → let chs = ch ∷ rest in
      count i (values (primary_index chs) base (sum (weights chs))) ≡ get_or (weights chs) i 0
unfolding primary_index
count-primary_index ch rest base i =
    let chs = ch ∷ rest in
    let ws = weights chs in
    let table = schedule_table ws in
    let long : length table ≡ sum ws = length-schedule_table ws in
    let listed = count-listed i (primary_index chs) table 0 (λ j k.
      ap (λ r. get_or table r 0)
        (ap (λ x. x % sum ws) (omega arith) ∙ mod-eq_of_lt (omega (arith, long)))) in
    count-period i (primary_index chs) (sum ws) (primary_index-period chs) base
    ∙ ap (λ n. count i (values (primary_index chs) 0 n)) (sym long)
    ∙ listed
    ∙ count-schedule_table ws i (weights_pos ch rest)

-- Equal weights.
abbrev cap : ℕ → ℕ
cap u = if ltb 100 u then 100 else u

same_weight-weights :
    (u : ℕ) (chs : List UpstreamChannel)
    → same_weight u chs ≡ true
    → weights chs ≡ replicate (length chs) (cap u)
unfolding same_weight weights clamp_weight
same_weight-weights u [] e = refl
same_weight-weights u (ch ∷ rest) e =
    let here : unit_weight ch.weight ≡ u = ground (arith, e) in
    let later : same_weight u rest ≡ true = ground (arith, e) in
    ap₂ ◌∷◌ (ap cap here) (same_weight-weights u rest later)

sum-replicate : (k w : ℕ) → sum (replicate k w) ≡ w * k
unfolding sum
sum-replicate zero w = omega arith
sum-replicate (suc k) w =
    let more : w * suc k ≡ w + w * k = omega arith in omega (arith, more, sum-replicate k w)

get_or-replicate : (k w i : ℕ) → get_or (replicate k w) i 0 ≡ w * (if ltb i k then 1 else 0)
get_or-replicate zero w i = ground arith
get_or-replicate (suc k) w zero = ground arith
get_or-replicate (suc k) w (suc i) = ground (arith, get_or-replicate k w i)

count-rotation :
    (k w base i : ℕ)
    → 0 < k
    → count i (values (λ x. x % k) base (w * k)) ≡ w * (if ltb i k then 1 else 0)
count-rotation k w base i p =
    let f : ℕ → ℕ = λ x. x % k in
    let one = count-identity i f 0 k (λ j q. mod-eq_of_lt (omega arith)) in
    let once : count i (values f 0 k) ≡ (if ltb i k then 1 else 0) = ground (arith, one) in
    count-periods i f k (λ x. add-mod_right x k) w base ∙ ap (λ n. w * n) once

count-constant : (n base i : ℕ) → count i (values (λ x. 0) base n) ≡ n * (if i == 0 then 1 else 0)
count-constant zero base i = omega arith
count-constant (suc n) base i = ground (arith, count-constant n (base + 1) i)

values-cong : (f g : ℕ → ℕ) (base n : ℕ) → ((x : ℕ) → f x ≡ g x) → values f base n ≡ values g base n
values-cong f g base zero h = refl
values-cong f g base (suc n) h = ap₂ ◌∷◌ (h base) (values-cong f g (base + 1) n h)

start_index-equal :
    (ch next : UpstreamChannel) (rest : List UpstreamChannel)
    → same_weight (unit_weight ch.weight) (next ∷ rest) ≡ true
    → (x : ℕ) → start_index (ch ∷ next ∷ rest) x ≡ x % length (ch ∷ next ∷ rest)
unfolding start_index
start_index-equal ch next rest e x = rw e refl

start_index-weighted :
    (ch next : UpstreamChannel) (rest : List UpstreamChannel)
    → same_weight (unit_weight ch.weight) (next ∷ rest) ≡ false
    → (x : ℕ) → start_index (ch ∷ next ∷ rest) x ≡ primary_index (ch ∷ next ∷ rest) x
unfolding start_index
start_index-weighted ch next rest e x = rw e refl

same_weight_self :
    (ch : UpstreamChannel) (rest : List UpstreamChannel)
    → same_weight (unit_weight ch.weight) rest ≡ true
    → same_weight (unit_weight ch.weight) (ch ∷ rest) ≡ true
unfolding same_weight
same_weight_self ch rest e = ground (arith, e)

count-equal :
    (ch next : UpstreamChannel) (rest : List UpstreamChannel) (base i : ℕ)
    → same_weight (unit_weight ch.weight) (next ∷ rest) ≡ true
    → let chs = ch ∷ next ∷ rest in
      count i (values (start_index chs) base (sum (weights chs))) ≡ get_or (weights chs) i 0
count-equal ch next rest base i e =
    let chs = ch ∷ next ∷ rest in
    let k = length chs in
    let w = cap (unit_weight ch.weight) in
    let equal : weights chs ≡ replicate k w =
      same_weight-weights (unit_weight ch.weight) chs (same_weight_self ch (next ∷ rest) e) in
    ap (λ l. count i l)
      (values-cong (start_index chs) (λ x. x % k) base (sum (weights chs))
        (start_index-equal ch next rest e))
    ∙ ap (λ n. count i (values (λ x. x % k) base n)) (ap sum equal ∙ sum-replicate k w)
    ∙ count-rotation k w base i (omega arith)
    ∙ sym (get_or-replicate k w i)
    ∙ ap (λ l. get_or l i 0) (sym equal)

count-single :
    (ch : UpstreamChannel) (base i : ℕ)
    → let chs = ch ∷ [] in
      count i (values (start_index chs) base (sum (weights chs))) ≡ get_or (weights chs) i 0
unfolding start_index
count-single ch base i =
    let w = clamp_weight ch.weight in
    let total : sum (weights (ch ∷ [])) ≡ w * 1 = unfold sum in unfold weights in omega arith in
    ap (λ l. count i l)
      (values-cong (start_index (ch ∷ [])) (λ x. 0) base (sum (weights (ch ∷ []))) (λ x. refl))
    ∙ count-constant (sum (weights (ch ∷ []))) base i
    ∙ (unfold weights in unfold sum in one w i)
  where
    one : (w i : ℕ) → (w + 0) * (if i == 0 then 1 else 0) ≡ get_or (w ∷ []) i 0
    one w zero = ground arith
    one w (suc i) = ground arith

count-start_index :
    (healthy : List UpstreamChannel) (base i : ℕ)
    → count i (values (start_index healthy) base (sum (weights healthy)))
      ≡ get_or (weights healthy) i 0
count-start_index [] base i = unfold weights in unfold sum in refl
count-start_index (ch ∷ []) base i = count-single ch base i
count-start_index (ch ∷ next ∷ rest) base i =
    elim (Bool-cases (same_weight (unit_weight ch.weight) (next ∷ rest))) [
      | inl e ↦ count-equal ch next rest base i e
      | inr e ↦
          ap (λ l. count i l)
            (values-cong _ _ base (sum (weights (ch ∷ next ∷ rest)))
              (start_index-weighted ch next rest e))
          ∙ count-primary_index ch (next ∷ rest) base i
    ]

count-get_or : (xs : List ℕ) (r : ℕ) → r < length xs → 1 ≤ count (get_or xs r 0) xs
count-get_or [] r h = elim h [ ]
count-get_or (x ∷ xs) zero h = ground arith
count-get_or (x ∷ xs) (suc r) h = omega (arith, count-get_or xs r (omega arith))

get_or-length : (ws : List ℕ) (i : ℕ) → 1 ≤ get_or ws i 0 → i < length ws
get_or-length [] i h = elim h [ ]
get_or-length (w ∷ ws) zero h = omega arith
get_or-length (w ∷ ws) (suc i) h = omega (arith, get_or-length ws i h)

primary_index-lt :
    (ch : UpstreamChannel) (rest : List UpstreamChannel) (x : ℕ)
    → primary_index (ch ∷ rest) x < length (ch ∷ rest)
unfolding primary_index
primary_index-lt ch rest x =
    let ws = weights (ch ∷ rest) in
    let p = weights_pos ch rest in
    let r = x % sum ws in
    let table = schedule_table ws in
    let small : r < length table = omega (arith, length-schedule_table ws, mod-lt x p) in
    let often =
      get_or-length ws (get_or table r 0)
        (omega (arith, count-get_or table r small, count-schedule_table ws (get_or table r 0) p)) in
    let as_many : length ws ≡ length (ch ∷ rest) =
      unfold weights in length-map (ch ∷ rest) (λ c. clamp_weight c.weight) in
    omega (arith, often, as_many)

start_index-lt :
    (ch next : UpstreamChannel) (rest : List UpstreamChannel) (x : ℕ)
    → start_index (ch ∷ next ∷ rest) x < length (ch ∷ next ∷ rest)
start_index-lt ch next rest x =
    elim (Bool-cases (same_weight (unit_weight ch.weight) (next ∷ rest))) [
      | inl e ↦ rw (start_index-equal ch next rest e x) (mod-lt x (omega arith))
      | inr e ↦ rw (start_index-weighted ch next rest e x) (primary_index-lt ch (next ∷ rest) x)
    ]

first_of_ring :
    (n s : ℕ) (xs : List UpstreamChannel)
    → s < length xs
    → get_elem? (ring (suc n) s xs) 0 ≡ get_elem? xs s
first_of_ring n s xs h =
    let (x, e) = get_elem?-some xs s h in
    rw (ring-suc n s xs {x = x} (rw (mod-eq_of_lt {n = s} {m = length xs} h) e)) (sym e)

first-schedule_healthy :
    (healthy : List UpstreamChannel) (rr_index : ℕ)
    → get_elem? (schedule_healthy healthy rr_index) 0
      ≡ get_elem? healthy (start_index healthy rr_index)
unfolding schedule_healthy
first-schedule_healthy [] rr_index = refl
first-schedule_healthy (ch ∷ []) rr_index = unfold start_index in refl
first-schedule_healthy (ch ∷ next ∷ rest) rr_index =
    first_of_ring (suc (length rest)) (start_index (ch ∷ next ∷ rest) rr_index) (ch ∷ next ∷ rest)
      (start_index-lt ch next rest rr_index)

-- The channel that comes first is the one at the place that the counter chooses. Over as many
-- consecutive counters as the sum of the weights, from any one on, with equal weights or not, place
-- `i` is chosen exactly as often as the weight there says, counted as 1 when it is 0 or less and as
-- 100 when it is more.
pub schedule_fair :
    (healthy : List UpstreamChannel) (rr_index base i : ℕ)
    → (get_elem? (schedule_healthy healthy rr_index) 0
        ≡ get_elem? healthy (start_index healthy rr_index))
      × (count i (values (start_index healthy) base (sum (weights healthy)))
          ≡ get_or (weights healthy) i 0)
schedule_fair healthy rr_index base i =
    (first-schedule_healthy healthy rr_index, count-start_index healthy base i)
