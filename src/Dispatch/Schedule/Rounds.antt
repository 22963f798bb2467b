-- ===== src/Dispatch/Schedule/Rounds.antt =====
-- One round of smooth weighted round robin (service/dispatcher.go, `scheduleHealthyChannels`).
use relay_gateway.Common.Base.{
  ℕ, zero, suc, ◌+◌, ◌*◌, ◌≤◌, ◌<◌, ◌≡◌, refl, ◌⊎◌, inl, inr, some, List, [], ◌∷◌, arith,
  Bool-cases,
}
use native.Mathlib.Nat.{zero-add}
use relay_gateway.Common.Lists.{length, get_elem?}
use relay_gateway.Common.Int.{
  ℤ, pos, negsuc, pos_part, neg_part, ◌+ℤ◌, ◌-ℤ◌, ◌≤ℤ◌, ltb_ℤ, +ℤ_parts, -ℤ_parts,
}
use relay_gateway.Dispatch.Schedule.{round_loop, take_at, lowest, round, sum}

-- After `s` rounds over the weights `ws` with sum `t`, index `i` has been chosen `ns[i]` times:
-- `cs[i] = s * ws[i] - t * ns[i]`, and that is above `-t`.
abbrev pub Track : ℕ → ℕ → List ℕ → List ℤ → List ℕ → Type 0
Track s t [] [] [] = Unit {0}
Track s t (w ∷ ws) (c ∷ cs) (n ∷ ns) =
    (pos_part c + t * n ≡ s * w + neg_part c) × (neg_part c < t) × Track s t ws cs ns
Track s t _ _ _ = ⊥

abbrev pub bump : List ℕ → List ℤ → List ℤ
bump (w ∷ ws) (c ∷ cs) = (c +ℤ pos w) ∷ bump ws cs
bump _ cs = cs

abbrev pub AtMost : ℤ → List ℤ → Type 0
AtMost v [] = Unit {0}
AtMost v (c ∷ cs) = (c ≤ℤ v) × AtMost v cs

AtMost-mono : (u v : ℤ) (cs : List ℤ) → u ≤ℤ v → AtMost u cs → AtMost v cs
AtMost-mono u v [] h a = tt
AtMost-mono u v (c ∷ cs) h a = (omega (arith, a.0), AtMost-mono u v cs h a.1)

-- The result of the search: no sum passed the first value, or it names the first largest.
abbrev Best : ℕ → ℕ → ℤ → List ℤ → ℕ → Type 0
Best i max_idx max_val cs idx =
    ((idx ≡ max_idx) × AtMost max_val cs)
    ⊎ ((j : ℕ) × (v : ℤ) × (idx ≡ i + j) × (get_elem? cs j ≡ some v) × (max_val ≤ℤ v) × AtMost v cs)

larger :
    (i max_idx : ℕ) (max_val c : ℤ) (cs : List ℤ) (idx : ℕ)
    → max_val ≤ℤ c
    → Best (i + 1) i c cs idx
    → Best i max_idx max_val (c ∷ cs) idx
larger i max_idx max_val c cs idx h (inl (e, a)) =
    inr (0, c, omega arith, refl, h, (omega arith, a))
larger i max_idx max_val c cs idx h (inr (j, v, e, g, le, a)) =
    inr (suc j, v, omega arith, g, omega arith, (le, a))

smaller :
    (i max_idx : ℕ) (max_val c : ℤ) (cs : List ℤ) (idx : ℕ)
    → c ≤ℤ max_val
    → Best (i + 1) max_idx max_val cs idx
    → Best i max_idx max_val (c ∷ cs) idx
smaller i max_idx max_val c cs idx h (inl (e, a)) = inl (e, (h, a))
smaller i max_idx max_val c cs idx h (inr (j, v, e, g, le, a)) =
    inr (suc j, v, omega arith, g, le, (omega arith, a))

-- The loop adds the weights, and its index is that of a largest sum.
round_loop-Best :
    (s t i : ℕ) (ws : List ℕ) (cs : List ℤ) (ns : List ℕ) (max_idx : ℕ) (max_val : ℤ)
    → Track s t ws cs ns
    → let (cs', idx) = round_loop i ws cs max_idx max_val in
      (cs' ≡ bump ws cs) × Best i max_idx max_val (bump ws cs) idx
unfolding round_loop
round_loop-Best s t i [] [] [] max_idx max_val h = (refl, inl (refl, tt))
round_loop-Best s t i [] [] (n ∷ ns) max_idx max_val h = elim h [ ]
round_loop-Best s t i [] (c ∷ cs) ns max_idx max_val h = elim h [ ]
round_loop-Best s t i (w ∷ ws) [] ns max_idx max_val h = elim h [ ]
round_loop-Best s t i (w ∷ ws) (c ∷ cs) [] max_idx max_val h = elim h [ ]
round_loop-Best s t i (w ∷ ws) (c ∷ cs) (n ∷ ns) max_idx max_val h =
    elim (Bool-cases (ltb_ℤ max_val (c +ℤ pos w))) [
      | inl more ↦ rw more (
          let (same, best) = round_loop-Best s t (i + 1) ws cs ns i (c +ℤ pos w) h.2 in
          (rw same refl, larger i max_idx max_val (c +ℤ pos w) _ _ (ground arith) best))
      | inr less ↦ rw less (
          let (same, best) = round_loop-Best s t (i + 1) ws cs ns max_idx max_val h.2 in
          (rw same refl, smaller i max_idx max_val (c +ℤ pos w) _ _ (ground arith) best))
    ]

-- Not all sums are at most 0 after a round starts.
some_positive :
    (s t : ℕ) (ws : List ℕ) (cs : List ℤ) (ns : List ℕ)
    → Track s t ws cs ns
    → AtMost (pos 0) (bump ws cs)
    → suc s * sum ws ≤ t * sum ns
unfolding sum
some_positive s t [] [] [] h a = omega arith
some_positive s t [] [] (n ∷ ns) h a = elim h [ ]
some_positive s t [] (c ∷ cs) ns h a = elim h [ ]
some_positive s t (w ∷ ws) [] ns h a = elim h [ ]
some_positive s t (w ∷ ws) (c ∷ cs) [] h a = elim h [ ]
some_positive s t (w ∷ ws) (c ∷ cs) (n ∷ ns) h a =
    omega (arith, some_positive s t ws cs ns h.2 a.1, h.0, a.0, +ℤ_parts c (pos w))

-- One more choice of index `i`.
unfoldable pub inc_at : ℕ → List ℕ → List ℕ
inc_at i [] = []
inc_at zero (n ∷ ns) = suc n ∷ ns
inc_at (suc i) (n ∷ ns) = n ∷ inc_at i ns

bump_low : (c : ℤ) (w t : ℕ) → neg_part c < t → neg_part (c +ℤ pos w) < t
unfolding ◌+ℤ◌
bump_low c w t h = ground arith

take_low : (c : ℤ) (t : ℕ) → 0 < pos_part c → 0 < t → neg_part (c -ℤ pos t) < t
unfolding ◌-ℤ◌
take_low c t p q = ground arith

bump-Track :
    (s t : ℕ) (ws : List ℕ) (cs : List ℤ) (ns : List ℕ)
    → Track s t ws cs ns
    → Track (suc s) t ws (bump ws cs) ns
bump-Track s t [] [] [] h = tt
bump-Track s t [] [] (n ∷ ns) h = elim h [ ]
bump-Track s t [] (c ∷ cs) ns h = elim h [ ]
bump-Track s t (w ∷ ws) [] ns h = elim h [ ]
bump-Track s t (w ∷ ws) (c ∷ cs) [] h = elim h [ ]
bump-Track s t (w ∷ ws) (c ∷ cs) (n ∷ ns) h =
    (omega (arith, h.0, +ℤ_parts c (pos w)), bump_low c w t h.1, bump-Track s t ws cs ns h.2)

take_at-Track :
    (s t i : ℕ) (ws : List ℕ) (cs : List ℤ) (ns : List ℕ) (v : ℤ)
    → Track s t ws cs ns
    → get_elem? cs i ≡ some v
    → 0 < pos_part v
    → 0 < t
    → Track s t ws (take_at i (pos t) cs) (inc_at i ns)
unfolding take_at inc_at
take_at-Track s t i [] [] [] v h e p q = cc
take_at-Track s t i [] [] (n ∷ ns) v h e p q = elim h [ ]
take_at-Track s t i [] (c ∷ cs) ns v h e p q = elim h [ ]
take_at-Track s t i (w ∷ ws) [] ns v h e p q = elim h [ ]
take_at-Track s t i (w ∷ ws) (c ∷ cs) [] v h e p q = elim h [ ]
take_at-Track s t zero (w ∷ ws) (c ∷ cs) (n ∷ ns) v h e p q =
    let here : 0 < pos_part c = ground arith in
    (omega (arith, h.0, -ℤ_parts c (pos t)), take_low c t here q, h.2)
take_at-Track s t (suc i) (w ∷ ws) (c ∷ cs) (n ∷ ns) v h e p q =
    (h.0, h.1, take_at-Track s t i ws cs ns v h.2 e p q)

too_low :
    (s t : ℕ) (ws : List ℕ) (cs : List ℤ) (ns : List ℕ)
    → Track s t ws cs ns
    → sum ws ≡ t
    → sum ns ≡ s
    → 0 < t
    → ¬ AtMost (pos 0) (bump ws cs)
too_low s t ws cs ns h e f p a =
    let few : suc s * t ≤ t * s = rw e at (rw f at (some_positive s t ws cs ns h a)) in omega arith

-- The largest sum is positive, and it is not the initial value of the search.
max-is_positive :
    (s t : ℕ) (ws : List ℕ) (cs : List ℤ) (ns : List ℕ) (idx : ℕ)
    → Track s t ws cs ns
    → sum ws ≡ t
    → sum ns ≡ s
    → 0 < t
    → Best 0 0 lowest (bump ws cs) idx
    → (v : ℤ) × (get_elem? (bump ws cs) idx ≡ some v) × (0 < pos_part v)
max-is_positive s t ws cs ns idx h e f p (inl (z, a)) =
    absurd (too_low s t ws cs ns h e f p (AtMost-mono lowest (pos 0) (bump ws cs) (omega arith) a))
max-is_positive s t ws cs ns idx h e f p (inr (j, (pos (suc v)), z, g, le, a)) =
    (pos (suc v), rw (z, zero-add) g, omega arith)
max-is_positive s t ws cs ns idx h e f p (inr (j, (pos zero), z, g, le, a)) =
    absurd (too_low s t ws cs ns h e f p a)
max-is_positive s t ws cs ns idx h e f p (inr (j, (negsuc v), z, g, le, a)) =
    absurd
      (too_low s t ws cs ns h e f p (AtMost-mono (negsuc v) (pos 0) (bump ws cs) (omega arith) a))

Track-index :
    (s t : ℕ) (ws : List ℕ) (cs : List ℤ) (ns : List ℕ) (i : ℕ) {v : ℤ}
    → Track s t ws cs ns
    → get_elem? cs i ≡ some v
    → i < length ns
Track-index s t [] [] ns i h e = cc
Track-index s t [] (c ∷ cs) ns i h e = elim h [ ]
Track-index s t (w ∷ ws) [] ns i h e = elim h [ ]
Track-index s t (w ∷ ws) (c ∷ cs) [] i h e = elim h [ ]
Track-index s t (w ∷ ws) (c ∷ cs) (n ∷ ns) zero h e = omega arith
Track-index s t (w ∷ ws) (c ∷ cs) (n ∷ ns) (suc i) h e =
    omega (arith, Track-index s t ws cs ns i h.2 e)

-- One round keeps the account, with one more choice of its index.
pub round-Track :
    (s t : ℕ) (ws : List ℕ) (cs : List ℤ) (ns : List ℕ)
    → Track s t ws cs ns
    → sum ws ≡ t
    → sum ns ≡ s
    → 0 < t
    → let (cs', idx) = round t ws cs in Track (suc s) t ws cs' (inc_at idx ns) × (idx < length ns)
unfolding round
round-Track s t ws cs ns h e f p =
    let (same, best) = round_loop-Best s t 0 ws cs ns 0 lowest h in
    let (v, g, q) = max-is_positive s t ws cs ns _ h e f p best in
    (
      rw same (take_at-Track (suc s) t _ ws _ ns v (bump-Track s t ws cs ns h) g q p),
      Track-index (suc s) t ws (bump ws cs) ns _ (bump-Track s t ws cs ns h) g,
    )
