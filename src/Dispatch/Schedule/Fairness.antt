-- ===== src/Dispatch/Schedule/Fairness.antt =====
-- Over one period the weighted schedule is fair (service/dispatcher.go, `scheduleHealthyChannels`).
use relay_gateway.Common.Base.{
  ℕ, zero, suc, ◌+◌, ◌*◌, ◌≤◌, ◌<◌, ◌≡◌, refl, List, [], ◌∷◌, arith, ◌==◌, if◌then◌else◌, ap, subst,
}
use relay_gateway.Common.Lists.{length, get_or, replicate}
use relay_gateway.Common.Int.{ℤ, pos, pos_part, neg_part}
use relay_gateway.Dispatch.Channel.{UpstreamChannel}
use relay_gateway.Dispatch.Schedule.{round, rounds, sum, weights, schedule_table}
use relay_gateway.Dispatch.Schedule.Rounds.{Track, inc_at, round-Track}

abbrev pub count : ℕ → List ℕ → ℕ
count i [] = 0
count i (x ∷ xs) = (if x == i then 1 else 0) + count i xs

-- The counts of the choices made so far, with those of the list added.
tally : List ℕ → List ℕ → List ℕ
tally [] ns = ns
tally (i ∷ is) ns = tally is (inc_at i ns)

sum-inc_at : (i : ℕ) (ns : List ℕ) → i < length ns → sum (inc_at i ns) ≡ suc (sum ns)
unfolding sum inc_at
sum-inc_at i [] h = elim h [ ]
sum-inc_at zero (n ∷ ns) h = omega arith
sum-inc_at (suc i) (n ∷ ns) h = omega (arith, sum-inc_at i ns (omega arith))

get_or-inc_at :
    (i j : ℕ) (ns : List ℕ)
    → i < length ns
    → get_or (inc_at i ns) j 0 ≡ (if i == j then 1 else 0) + get_or ns j 0
unfolding inc_at
get_or-inc_at i j [] h = elim h [ ]
get_or-inc_at zero zero (n ∷ ns) h = omega arith
get_or-inc_at zero (suc j) (n ∷ ns) h = ground arith
get_or-inc_at (suc i) zero (n ∷ ns) h = ground arith
get_or-inc_at (suc i) (suc j) (n ∷ ns) h = ground (arith, get_or-inc_at i j ns)

-- The account after any number of rounds.
rounds-Track :
    (fuel s t : ℕ) (ws : List ℕ) (cs : List ℤ) (ns : List ℕ)
    → Track s t ws cs ns
    → sum ws ≡ t
    → sum ns ≡ s
    → 0 < t
    → (ds : List ℤ) × (ms : List ℕ) × Track (s + fuel) t ws ds ms
      × (sum ms ≡ s + fuel)
      × ((j : ℕ) → get_or ms j 0 ≡ count j (rounds fuel t ws cs) + get_or ns j 0)
unfolding rounds
rounds-Track zero s t ws cs ns h e f p =
    (cs, ns, subst (λ k. Track k t ws cs ns) (omega arith) h, omega arith, λ j. omega arith)
rounds-Track (suc fuel) s t ws cs ns h e f p =
    let (h', small) = round-Track s t ws cs ns h e f p in
    let i = (round t ws cs).1 in
    let (ds, ms, k, total, counts) =
      rounds-Track fuel (suc s) t ws (round t ws cs).0 (inc_at i ns) h' e
        (omega (arith, sum-inc_at i ns small)) p in
    (
      ds,
      ms,
      subst (λ n. Track n t ws ds ms) (omega arith) k,
      omega arith,
      λ j. omega (arith, counts j, get_or-inc_at i j ns small),
    )

-- After a whole period nothing has been chosen more often than its weight.
over : (c : ℤ) (t w n : ℕ) → pos_part c + t * n ≡ t * w + neg_part c → neg_part c < t → n ≤ w
over c t w n h low = grind arith

abbrev Under : List ℕ → List ℕ → Type 0
Under [] [] = Unit {0}
Under (n ∷ ns) (w ∷ ws) = (n ≤ w) × Under ns ws
Under _ _ = ⊥

Track-Under : (t : ℕ) (ws : List ℕ) (cs : List ℤ) (ns : List ℕ) → Track t t ws cs ns → Under ns ws
Track-Under t [] [] [] h = tt
Track-Under t [] [] (n ∷ ns) h = elim h [ ]
Track-Under t [] (c ∷ cs) ns h = elim h [ ]
Track-Under t (w ∷ ws) [] ns h = elim h [ ]
Track-Under t (w ∷ ws) (c ∷ cs) [] h = elim h [ ]
Track-Under t (w ∷ ws) (c ∷ cs) (n ∷ ns) h = (over c t w n h.0 h.1, Track-Under t ws cs ns h.2)

sum-Under : (ns ws : List ℕ) → Under ns ws → sum ns ≤ sum ws
unfolding sum
sum-Under [] [] h = omega arith
sum-Under [] (w ∷ ws) h = elim h [ ]
sum-Under (n ∷ ns) [] h = elim h [ ]
sum-Under (n ∷ ns) (w ∷ ws) h = omega (arith, h.0, sum-Under ns ws h.1)

same_sum : (ns ws : List ℕ) → Under ns ws → sum ns ≡ sum ws → ns ≡ ws
unfolding sum
same_sum [] [] h e = refl
same_sum [] (w ∷ ws) h e = elim h [ ]
same_sum (n ∷ ns) [] h e = elim h [ ]
same_sum (n ∷ ns) (w ∷ ws) h e =
    let first : n ≡ w = omega (arith, h.0, sum-Under ns ws h.1) in
    cc (first, same_sum ns ws h.1 (omega arith))

start-Track :
    (t : ℕ) (ws : List ℕ)
    → 0 < t
    → Track 0 t ws (replicate (length ws) (pos 0)) (replicate (length ws) 0)
start-Track t [] p = tt
start-Track t (w ∷ ws) p = (omega arith, p, start-Track t ws p)

sum-zeros : (k : ℕ) → sum (replicate k 0) ≡ 0
unfolding sum
sum-zeros zero = refl
sum-zeros (suc k) = omega (arith, sum-zeros k)

get_or-zeros : (k i : ℕ) → get_or {A = ℕ} (replicate k 0) i 0 ≡ 0
get_or-zeros zero i = refl
get_or-zeros (suc k) zero = refl
get_or-zeros (suc k) (suc i) = get_or-zeros k i

length-rounds : (fuel t : ℕ) (ws : List ℕ) (cs : List ℤ) → length (rounds fuel t ws cs) ≡ fuel
unfolding rounds
length-rounds zero t ws cs = refl
length-rounds (suc fuel) t ws cs = ap suc (length-rounds fuel t ws (round t ws cs).0)

pub length-schedule_table : (ws : List ℕ) → length (schedule_table ws) ≡ sum ws
unfolding schedule_table
length-schedule_table ws = length-rounds (sum ws) (sum ws) ws (replicate (length ws) (pos 0))

-- One period of weights with a positive sum chooses every index as often as its weight says.
pub count-schedule_table :
    (ws : List ℕ) (i : ℕ) → 0 < sum ws → count i (schedule_table ws) ≡ get_or ws i 0
unfolding schedule_table
count-schedule_table ws i p =
    let k = length ws in
    let (ds, ms, end, total, counts) =
      rounds-Track (sum ws) 0 (sum ws) ws (replicate k (pos 0)) (replicate k 0)
        (start-Track (sum ws) ws p) refl (sum-zeros k) p in
    let under =
      Track-Under (sum ws) ws ds ms (subst (λ n. Track n (sum ws) ws ds ms) (omega arith) end) in
    let same = same_sum ms ws under (omega arith) in
    omega (arith, counts i, get_or-zeros k i, ap (λ l. get_or l i 0) same)

pub weights_pos :
    (ch : UpstreamChannel) (rest : List UpstreamChannel) → 0 < sum (weights (ch ∷ rest))
unfolding weights sum
weights_pos ch rest = ground arith
