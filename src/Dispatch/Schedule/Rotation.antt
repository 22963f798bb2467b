-- ===== src/Dispatch/Schedule/Rotation.antt =====
-- The order given to the callers is a rotation of the healthy channels (service/dispatcher.go,
-- `scheduleHealthyChannels`).
use native.Mathlib.Nat.{mod-add-mod, mod-eq_of_lt, mod-mod, mod-lt, zero-add, add-zero, suc-add}
use native.Mathlib.Numerals.{add-one}
use mathlib.Core.List.{Perm, perm_append_comm}
use mathlib.Core.List.Perm
use relay_gateway.Common.Base.{
  ℕ, zero, suc, ◌+◌, ◌-◌, ◌%◌, ◌≤◌, ◌<◌, ◌≡◌, refl, sym, ◌∙◌, ap, ap₂, some, List, [], ◌∷◌, ◌++◌,
  arith, subst,
}
use relay_gateway.Common.Lists.{length, get_elem?, take, drop, take-append-drop, length-drop}
use relay_gateway.Dispatch.Channel.{UpstreamChannel}
use relay_gateway.Dispatch.Schedule.{ring, schedule_healthy}

turn : (r k : ℕ) → r < k → (r + (k - r)) % k ≡ 0 % k
turn r k h = let e : r + (k - r) ≡ k = omega arith in rw e (grind arith)

module _ {ℓ} {A : Type ℓ} where
  pub get_elem?-some : (xs : List A) (i : ℕ) → i < length xs → (x : A) × (get_elem? xs i ≡ some x)
  get_elem?-some [] i h = elim h [ ]
  get_elem?-some (x ∷ xs) zero h = (x, refl)
  get_elem?-some (x ∷ xs) (suc i) h = get_elem?-some xs i (omega arith)

  pub ring-suc :
      (n s : ℕ) (xs : List A) {x : A}
      → get_elem? xs (s % length xs) ≡ some x
      → ring (suc n) s xs ≡ x ∷ ring n (s + 1) xs
  unfolding ring
  ring-suc n s xs e = rw (e, ring)

  drop-get_elem? :
      (xs : List A) (i : ℕ) {x : A} → get_elem? xs i ≡ some x → drop i xs ≡ x ∷ drop (suc i) xs
  drop-get_elem? [] i e = cc
  drop-get_elem? (x ∷ xs) zero e = ground arith
  drop-get_elem? (x ∷ xs) (suc i) e = drop-get_elem? xs i e

  ring-take : (n s : ℕ) (xs : List A) → s + n ≤ length xs → ring n s xs ≡ take n (drop s xs)
  unfolding ring
  ring-take zero s xs h = refl
  ring-take (suc n) s xs h =
      let (x, e) = get_elem?-some xs s (omega arith) in
      let there : get_elem? xs (s % length xs) ≡ some x =
        rw (mod-eq_of_lt {n = s} {m = length xs} (omega arith)) e in
      ring-suc n s xs there
      ∙ rw (drop-get_elem? xs s e)
          (ap (λ l. x ∷ l) (ring-take n (s + 1) xs (omega arith) ∙ rw add-one refl))

  ring-append :
      (m n s : ℕ) (xs : List A)
      → 0 < length xs
      → ring (m + n) s xs ≡ ring m s xs ++ ring n (s + m) xs
  ring-append zero n s xs p = rw (zero-add, add-zero) (unfold ring in refl)
  ring-append (suc m) n s xs p =
      let (x, e) = get_elem?-some xs (s % length xs) (mod-lt s p) in
      rw (suc-add, ring-suc (m + n) s xs e, ring-suc m s xs e)
        (ap (λ l. x ∷ l)
          (ring-append m n (s + 1) xs p ∙ ap (λ k. ring m (s + 1) xs ++ ring n k xs) (omega arith)))

  ring-cong :
      (n s t : ℕ) (xs : List A)
      → 0 < length xs
      → s % length xs ≡ t % length xs
      → ring n s xs ≡ ring n t xs
  ring-cong zero s t xs p e = unfold ring in refl
  ring-cong (suc n) s t xs p e =
      let (x, g) = get_elem?-some xs (s % length xs) (mod-lt s p) in
      rw (ring-suc n s xs g, ring-suc n t xs {x = x} (rw (← e) g))
        (ap (λ l. x ∷ l)
          (ring-cong n (s + 1) (t + 1) xs p (
            sym (mod-add-mod s (length xs) 1)
            ∙ ap (λ k. (k + 1) % length xs) e
            ∙ mod-add-mod t (length xs) 1)))

  take-length : (xs : List A) → take (length xs) xs ≡ xs
  take-length [] = refl
  take-length (x ∷ xs) = ap (λ l. x ∷ l) (take-length xs)

  take_exact : (n : ℕ) (xs : List A) → length xs ≤ n → take n xs ≡ xs
  take_exact zero [] h = refl
  take_exact (suc n) [] h = refl
  take_exact zero (x ∷ xs) h = absurd (omega arith)
  take_exact (suc n) (x ∷ xs) h = ap (λ l. x ∷ l) (take_exact n xs (omega arith))

  -- A whole turn of the ring is a rotation.
  pub ring-rotation :
      (s : ℕ) (xs : List A)
      → 0 < length xs
      → let r = s % length xs in ring (length xs) s xs ≡ drop r xs ++ take r xs
  ring-rotation s xs p =
      let k = length xs in
      let r = s % k in
      let small : r < k = mod-lt s p in
      let whole : k ≡ k - r + r = omega arith in
      ring-cong k s r xs p (sym (mod-mod s k))
      ∙ ap (λ n. ring n r xs) whole
      ∙ ring-append (k - r) r r xs p
      ∙ ap₂ ◌++◌
          (ring-take (k - r) r xs (omega arith)
            ∙ take_exact (k - r) (drop r xs) (omega (arith, length-drop r xs)))
          (ring-cong r (r + (k - r)) 0 xs p (rw (turn r k small) refl)
            ∙ ring-take r 0 xs (omega arith))

  ring-perm : (s : ℕ) (xs : List A) → 0 < length xs → Perm (ring (length xs) s xs) xs
  ring-perm s xs p =
      let r = s % length xs in
      subst (λ l. Perm l xs) (sym (ring-rotation s xs p))
        (subst (λ l. Perm (drop r xs ++ take r xs) l) (take-append-drop r xs)
          (perm_append_comm (drop r xs) (take r xs)))

-- Whatever the weights and the counter, every healthy channel is a candidate exactly as often as it
-- was given: the order is a permutation of the healthy channels.
pub schedule_healthy-perm :
    (healthy : List UpstreamChannel) (rr_index : ℕ)
    → Perm (schedule_healthy healthy rr_index) healthy
unfolding schedule_healthy
schedule_healthy-perm [] rr_index = Perm.nil
schedule_healthy-perm (ch ∷ []) rr_index = Perm.refl _
schedule_healthy-perm (ch ∷ next ∷ rest) rr_index =
    unfold ring in ring-perm _ (ch ∷ next ∷ rest) (omega arith)
