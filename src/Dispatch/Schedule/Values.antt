-- ===== src/Dispatch/Schedule/Values.antt =====
-- Counting the values of a periodic function (for service/dispatcher.go, `scheduleHealthyChannels`).
use relay_gateway.Common.Base.{
  ℕ, zero, suc, ◌+◌, ◌*◌, ◌<◌, ◌≡◌, refl, ◌∙◌, ap, ap₂, ◌&&◌, List, [], ◌∷◌, ltb, leb, ◌==◌,
  if◌then◌else◌, arith,
}
use relay_gateway.Common.Lists.{length, get_or}
use relay_gateway.Dispatch.Schedule.Fairness.{count}

-- The values of `f` at `n` consecutive numbers.
abbrev pub values : (ℕ → ℕ) → ℕ → ℕ → List ℕ
values f base zero = []
values f base (suc n) = f base ∷ values f (base + 1) n

module _ (i : ℕ) (f : ℕ → ℕ) where
  abbrev hit : ℕ → ℕ
  hit y = if y == i then 1 else 0

  pub count-cong : (b c m n : ℕ) → b ≡ c → m ≡ n → count i (values f b m) ≡ count i (values f c n)
  count-cong b c m n p q = ap₂ (λ x y. count i (values f x y)) p q

  pub count-values_add :
      (base m n : ℕ)
      → count i (values f base (m + n))
        ≡ count i (values f base m) + count i (values f (base + m) n)
  count-values_add base zero n =
      omega (arith, count-cong base (base + 0) (0 + n) n (omega arith) (omega arith))
  count-values_add base (suc m) n =
      let first = count-cong base base (suc m + n) (suc (m + n)) refl (omega arith) in
      let rest = count-cong (base + 1 + m) (base + suc m) n n (omega arith) refl in
      omega (arith, first, rest, count-values_add (base + 1) m n)

  -- Over a whole period it does not matter where one starts.
  pub count-period :
      (t : ℕ)
      → ((x : ℕ) → f (x + t) ≡ f x)
      → (base : ℕ) → count i (values f base t) ≡ count i (values f 0 t)
  count-period t h zero = refl
  count-period t h (suc base) =
      let before = count-values_add base t 1 in
      let after = count-values_add base 1 t in
      let same = count-cong base base (t + 1) (1 + t) refl (omega arith) in
      let next = count-cong (base + 1) (suc base) t t (omega arith) refl in
      let last : count i (values f (base + t) 1) ≡ count i (values f base 1) =
        ap (λ x. (if x == i then 1 else 0) + 0) (h base) in
      omega (arith, before, after, same, next, last, count-period t h base)

  pub count-periods :
      (t : ℕ)
      → ((x : ℕ) → f (x + t) ≡ f x)
      → (w base : ℕ) → count i (values f base (w * t)) ≡ w * count i (values f 0 t)
  count-periods t h zero base = omega (arith, count-cong base base (0 * t) 0 refl (omega arith))
  count-periods t h (suc w) base =
      let whole = count-cong base base (suc w * t) (t + w * t) refl (omega arith) in
      let n = count i (values f 0 t) in
      let more : suc w * n ≡ n + w * n = omega arith in
      omega (
        arith,
        whole,
        more,
        count-values_add base t (w * t),
        count-period t h base,
        count-periods t h w (base + t),
      )

  -- The values that a list holds.
  pub count-listed :
      (xs : List ℕ) (s : ℕ)
      → ((j : ℕ) → j < length xs → f (s + j) ≡ get_or xs j 0)
      → count i (values f s (length xs)) ≡ count i xs
  count-listed [] s h = refl
  count-listed (x ∷ xs) s h =
      let here : f s ≡ x = ap f (omega arith) ∙ h 0 (omega arith) in
      let first : hit (f s) ≡ hit x = ap hit here in
      omega (
        arith,
        first,
        count-listed xs (s + 1) (λ j k. ap f (omega arith) ∙ h (suc j) (omega arith)),
      )

  pub count-identity :
      (s n : ℕ)
      → ((j : ℕ) → j < n → f (s + j) ≡ s + j)
      → count i (values f s n) ≡ (if leb s i && ltb i (s + n) then 1 else 0)
  count-identity s zero h = ground arith
  count-identity s (suc n) h =
      let here : f s ≡ s = ap f (omega arith) ∙ h 0 (omega arith) ∙ omega arith in
      let first : hit (f s) ≡ hit s = ap hit here in
      let rest =
        count-identity (s + 1) n
          (λ j k. ap f (omega arith) ∙ h (suc j) (omega arith) ∙ omega arith) in
      ground (arith, first, rest)
