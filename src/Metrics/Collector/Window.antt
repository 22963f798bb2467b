-- ===== src/Metrics/Collector/Window.antt =====
-- The window of latencies is a ring (metrics/collector.go, `ObserveRequest`).
use native.Mathlib.Nat.{mod-lt, mod-eq_of_lt, mod_self}
use mathlib.Core.List.{append-nil, append_assoc}
use relay_gateway.Common.Base.{
  ℕ, zero, suc, ◌+◌, ◌-◌, ◌%◌, ◌≤◌, ◌<◌, ◌≡◌, refl, sym, ap, ◌∙◌, inl, inr, Bool, true, List, [],
  ◌∷◌, ◌++◌, arith, ltb, ◌==◌, subst, Bool-cases,
}
use relay_gateway.Common.Int.{ℤ, pos_part}
use relay_gateway.Common.Lists.{length, length-append, length-drop, length-set, set, take, drop}
use relay_gateway.Metrics.Collector.{
  Collector, new_collector, keep_latency, observe_request, observe_all,
}

module _ {ℓ} {A : Type ℓ} where
  drop-set : (l : List A) (n : ℕ) (d : A) → drop (suc n) (set l n d) ≡ drop (suc n) l
  drop-set [] n d = refl
  drop-set (x ∷ l) zero d = refl
  drop-set (x ∷ l) (suc n) d = drop-set l n d

  take-set :
      (l : List A) (n : ℕ) (d : A) → n < length l → take (suc n) (set l n d) ≡ take n l ++ d ∷ []
  take-set [] n d h = absurd (omega arith)
  take-set (x ∷ l) zero d h = refl
  take-set (x ∷ l) (suc n) d h = ap (λ t. x ∷ t) (take-set l n d (omega arith))

  drop-drop : (l : List A) (n : ℕ) → drop 1 (drop n l) ≡ drop (suc n) l
  drop-drop [] zero = refl
  drop-drop [] (suc n) = refl
  drop-drop (x ∷ l) zero = refl
  drop-drop (x ∷ l) (suc n) = drop-drop l n

  drop-append : (l ys : List A) (n : ℕ) → n ≤ length l → drop n (l ++ ys) ≡ drop n l ++ ys
  drop-append l ys zero h = refl
  drop-append [] ys (suc n) h = absurd (omega arith)
  drop-append (x ∷ l) ys (suc n) h = drop-append l ys n (omega arith)

  drop-all : (l : List A) (n : ℕ) → length l ≤ n → drop n l ≡ []
  drop-all [] zero h = refl
  drop-all [] (suc n) h = refl
  drop-all (x ∷ l) zero h = absurd (omega arith)
  drop-all (x ∷ l) (suc n) h = drop-all l n (omega arith)

  -- A rotated list without its first element.
  drop-rotated :
      (l : List A) (n : ℕ)
      → n < length l
      → drop 1 (drop n l ++ take n l) ≡ drop (suc n) l ++ take n l
  drop-rotated l n h =
      drop-append (drop n l) (take n l) 1 (omega (arith, length-drop n l))
      ∙ ap (λ t. t ++ take n l) (drop-drop l n)

  -- Overwriting the last place.
  set-last : (l : List A) (n : ℕ) (d : A) → suc n ≡ length l → set l n d ≡ take n l ++ d ∷ []
  set-last [] n d h = absurd (omega arith)
  set-last (x ∷ []) zero d h = refl
  set-last (x ∷ y ∷ l) zero d h = absurd (omega arith)
  set-last (x ∷ l) (suc n) d h = ap (λ t. x ∷ t) (set-last l n d (omega arith))

-- The latencies in the window, the oldest first.
abbrev pub in_order : Collector → List ℕ
in_order c = drop c.next_latency c.latencies ++ take c.next_latency c.latencies

-- The last `k` elements.
abbrev pub last {ℓ} : {A : Type ℓ} → ℕ → List A → List A
last k xs = drop (length xs - k) xs

-- The collector keeps the last latencies of `history`, and starts over only in a full window.
record Ring (c : Collector) (history : List ℕ) : Type 0 where
  some_room : 0 < c.max_latencies
  inside : c.next_latency < c.max_latencies
  small : length c.latencies < c.max_latencies → (c.next_latency ≡ 0) × (c.latencies ≡ history)
  bounded : length c.latencies ≤ c.max_latencies
  enough : length c.latencies ≤ length history
  newest : in_order c ≡ last c.max_latencies history

last-snoc :
    (k : ℕ) (xs : List ℕ) (d : ℕ)
    → k ≤ length xs
    → 0 < k
    → last k (xs ++ d ∷ []) ≡ drop 1 (last k xs) ++ d ∷ []
last-snoc k xs d h p =
    let e : length (xs ++ d ∷ []) - k ≡ suc (length xs - k) =
      omega (arith, length-append xs (d ∷ [])) in
    rw (e, drop-drop xs (length xs - k))
      (drop-append xs (d ∷ []) (suc (length xs - k)) (omega arith))

-- The window grows.
grow-Ring :
    (c : Collector) (history : List ℕ) (d : ℕ)
    → Ring c history
    → length c.latencies < c.max_latencies
    → Ring (record c { latencies = c.latencies ++ d ∷ [] }) (history ++ d ∷ [])
grow-Ring c history d v room =
    let (start, same) = v.small room in
    let longer = length-append c.latencies (d ∷ []) in
    let longer' = length-append history (d ∷ []) in
    let l : length history ≡ length c.latencies = ap length (sym same) in
    let whole : length (history ++ d ∷ []) - c.max_latencies ≡ 0 =
      omega (arith, longer', l, room) in
    record {
      some_room = v.some_room;
      inside = v.inside;
      small = λ s. (start, ap (λ h. h ++ d ∷ []) same);
      bounded = omega (arith, longer, room);
      enough = omega (arith, longer, longer', l);
      newest = rw (start, whole) (append-nil (c.latencies ++ d ∷ []) ∙ ap (λ h. h ++ d ∷ []) same);
    }

succ : (n : ℕ) → n + 1 ≡ suc n
succ n = omega arith

-- A new latency takes the place of the oldest one.
turn-in_order :
    (c : Collector) (d : ℕ)
    → c.next_latency < c.max_latencies
    → length c.latencies ≡ c.max_latencies
    → in_order (record c {
      latencies = set c.latencies c.next_latency d;
      next_latency = (c.next_latency + 1) % c.max_latencies;
    })
      ≡ drop 1 (in_order c) ++ d ∷ []
turn-in_order c d inside full =
    let n = c.next_latency in
    let l = c.latencies in
    let taken = take-set l n d (omega (arith, inside, full)) in
    elim (Bool-cases (n + 1 == c.max_latencies)) [
      | inl e ↦
          let m : n + 1 ≡ c.max_latencies = ground (arith, e) in
          let zeroed : (n + 1) % c.max_latencies ≡ 0 = rw m (mod_self c.max_latencies) in
          rw
            (
              zeroed,
              drop-rotated l n (omega (arith, inside, full)),
              drop-all l (suc n) (omega (arith, m, full)),
            )
            (append-nil (set l n d) ∙ set-last l n d (omega (arith, m, full)))
      | inr e ↦
          let m : (n + 1) % c.max_latencies ≡ suc n =
            mod-eq_of_lt (ground (arith, e, inside)) ∙ succ n in
          rw (m, drop-rotated l n (omega (arith, inside, full)), drop-set l n d, taken)
            (sym (append_assoc (drop (suc n) l) (take n l) (d ∷ [])))
    ]

turn-Ring :
    (c : Collector) (history : List ℕ) (d : ℕ)
    → Ring c history
    → length c.latencies ≡ c.max_latencies
    → Ring
        (record c {
          latencies = set c.latencies c.next_latency d;
          next_latency = (c.next_latency + 1) % c.max_latencies;
        })
        (history ++ d ∷ [])
turn-Ring c history d v full =
    let kept = length-set c.latencies c.next_latency d in
    let longer = length-append history (d ∷ []) in
    record {
      some_room = v.some_room;
      inside = mod-lt (c.next_latency + 1) v.some_room;
      small = λ s. absurd (omega (arith, s, kept, full));
      bounded = omega (arith, kept, full);
      enough = omega (arith, kept, longer, v.enough);
      newest =
          turn-in_order c d v.inside full
          ∙ ap (λ h. drop 1 h ++ d ∷ []) v.newest
          ∙ sym (last-snoc c.max_latencies history d (omega (arith, v.enough, full)) v.some_room);
    }

keep_latency-Ring :
    (c : Collector) (history : List ℕ) (d : ℕ)
    → Ring c history
    → Ring (keep_latency d c) (history ++ d ∷ [])
unfolding keep_latency
keep_latency-Ring c history d v =
    let room : ltb 0 c.max_latencies ≡ true = ground (arith, v.some_room) in
    elim (Bool-cases (length c.latencies == c.max_latencies)) [
      | inl e ↦ rw (room, e) (turn-Ring c history d v (ground (arith, e)))
      | inr e ↦ rw (room, e) (grow-Ring c history d v (ground (arith, e, v.bounded)))
    ]

observe_request-Ring :
    (duration : ℤ) (success : Bool) (c : Collector) (history : List ℕ)
    → Ring c history
    → Ring (observe_request duration success c) (history ++ pos_part duration ∷ [])
unfolding observe_request
observe_request-Ring duration success c history v =
    keep_latency-Ring _ history (pos_part duration) (record {
      some_room = v.some_room;
      inside = v.inside;
      small = v.small;
      bounded = v.bounded;
      enough = v.enough;
      newest = v.newest;
    })

-- The durations that were observed, a negative one as 0.
abbrev pub durations : List (ℤ × Bool) → List ℕ
durations [] = []
durations ((duration, success) ∷ es) = pos_part duration ∷ durations es

observe_all-Ring :
    (es : List (ℤ × Bool)) (c : Collector) (history : List ℕ)
    → Ring c history
    → Ring (observe_all es c) (history ++ durations es)
unfolding observe_all
observe_all-Ring [] c history v = subst (Ring c) (sym (append-nil history)) v
observe_all-Ring ((duration, success) ∷ es) c history v =
    subst (Ring (observe_all es (observe_request duration success c)))
      (append_assoc history (pos_part duration ∷ []) (durations es))
      (observe_all-Ring es (observe_request duration success c) (history ++ pos_part duration ∷ [])
        (observe_request-Ring duration success c history v))

new_collector-Ring : (max : ℕ) → Ring (new_collector max) []
unfolding new_collector
new_collector-Ring max = record {
  some_room = ground arith;
  inside = ground arith;
  small = λ s. (refl, refl);
  bounded = omega arith;
  enough = omega arith;
  newest = sym (drop-all [] _ (omega arith));
}

-- After any sequence of observations the window of a new collector holds exactly the latencies of the
-- last observations, as many as it has samples for, and read from the next place on in their order.
pub window-last :
    (max : ℕ) (es : List (ℤ × Bool))
    → let c = observe_all es (new_collector max) in
      (in_order c ≡ last c.max_latencies (durations es)) × (length c.latencies ≤ c.max_latencies)
window-last max es =
    let v = observe_all-Ring es (new_collector max) [] (new_collector-Ring max) in
    (v.newest, v.bounded)
