-- ===== src/Dispatch/Candidates/Sound.antt =====
-- Which channels a resolution returns, and in what order (service/dispatcher.go).
use relay_gateway.Common.Base.{
  ℕ, zero, suc, ◌+◌, ◌≤◌, ◌<◌, ◌≡◌, sym, subst, ◌%◌, inl, inr, Bool, true, List, [], ◌∷◌, ◌++◌,
  arith, Bool-cases,
}
use relay_gateway.Common.Lists.{length, take, drop}
use relay_gateway.Dispatch.Channel.{UpstreamChannel}
use relay_gateway.Dispatch.Failover.{Breakers}
use relay_gateway.Dispatch.Schedule.{schedule_healthy, ring}
use relay_gateway.Dispatch.Schedule.Rotation.{ring-rotation}
use relay_gateway.Dispatch.Candidates.{
  filter, or_else, tier, insert_tier, tiers, candidate_available, in_tier, order_tiers,
}

abbrev pub All {ℓ} : {A : Type ℓ} → (A → Type 0) → List A → Type 0
All P [] = Unit {0}
All P (x ∷ xs) = P x × All P xs

module _ {ℓ} {A : Type ℓ} where
  All-append : (P : A → Type 0) (xs ys : List A) → All P xs → All P ys → All P (xs ++ ys)
  All-append P [] ys a b = b
  All-append P (x ∷ xs) ys a b = (a.0, All-append P xs ys a.1 b)

  pub All-imp : (P Q : A → Type 0) (xs : List A) → ((x : A) → P x → Q x) → All P xs → All Q xs
  All-imp P Q [] h a = tt
  All-imp P Q (x ∷ xs) h a = (h x a.0, All-imp P Q xs h a.1)

  -- What is kept passes the test, and keeps what it had.
  pub filter-All :
      (P : A → Type 0) (keep : A → Bool) (xs : List A)
      → All P xs
      → All (λ x. P x × (keep x ≡ true)) (filter keep xs)
  unfolding filter
  filter-All P keep [] a = tt
  filter-All P keep (x ∷ xs) a = elim (Bool-cases (keep x)) [
    | inl e ↦ rw e ((a.0, e), filter-All P keep xs a.1)
    | inr e ↦ rw e (filter-All P keep xs a.1)
  ]

  pub or_else-All : (P : A → Type 0) (xs ys : List A) → All P xs → All P ys → All P (or_else xs ys)
  or_else-All P [] ys a b = b
  or_else-All P (x ∷ xs) ys a b = a

  All-drop : (P : A → Type 0) (n : ℕ) (xs : List A) → All P xs → All P (drop n xs)
  All-drop P zero xs a = a
  All-drop P (suc n) [] a = tt
  All-drop P (suc n) (x ∷ xs) a = All-drop P n xs a.1

  All-take : (P : A → Type 0) (n : ℕ) (xs : List A) → All P xs → All P (take n xs)
  All-take P zero xs a = tt
  All-take P (suc n) [] a = tt
  All-take P (suc n) (x ∷ xs) a = (a.0, All-take P n xs a.1)

ring-All :
    (P : UpstreamChannel → Type 0) (s : ℕ) (chs : List UpstreamChannel)
    → 0 < length chs
    → All P chs
    → All P (ring (length chs) s chs)
ring-All P s chs p a =
    let r = s % length chs in
    subst (All P) (sym (ring-rotation s chs p))
      (All-append P (drop r chs) (take r chs) (All-drop P r chs a) (All-take P r chs a))

schedule_healthy-All :
    (P : UpstreamChannel → Type 0) (chs : List UpstreamChannel) (i : ℕ)
    → All P chs
    → All P (schedule_healthy chs i)
unfolding schedule_healthy
schedule_healthy-All P [] i a = tt
schedule_healthy-All P (ch ∷ []) i a = a
schedule_healthy-All P (ch ∷ next ∷ rest) i a =
    unfold ring in ring-All P _ (ch ∷ next ∷ rest) (omega arith) a

-- What every candidate of the pool gets from the loop over the tiers.
pub order_tiers-All :
    (P : UpstreamChannel → Type 0) (index : List UpstreamChannel → ℕ) (breakers : Breakers)
    (now : ℕ) (pool : List UpstreamChannel) (ps : List ℕ)
    → All P pool
    → All
        (λ ch. P ch × (candidate_available breakers now ch ≡ true))
        (order_tiers index breakers now pool ps)
unfolding order_tiers
order_tiers-All P index breakers now pool [] a = tt
order_tiers-All P index breakers now pool (p ∷ ps) a =
    let grouped = All-imp _ P _ (λ ch h. h.0) (filter-All P (in_tier p) pool a) in
    All-append _ _ _
      (schedule_healthy-All _ _ _ (filter-All P (candidate_available breakers now) _ grouped))
      (order_tiers-All P index breakers now pool ps a)

-- The candidates stand in the order of their tiers.
abbrev pub SortedFrom : ℕ → List UpstreamChannel → Type 0
SortedFrom p [] = Unit {0}
SortedFrom p (ch ∷ chs) = (p ≤ tier ch) × SortedFrom (tier ch) chs

SortedFrom-mono :
    (p q : ℕ) (chs : List UpstreamChannel) → p ≤ q → SortedFrom q chs → SortedFrom p chs
SortedFrom-mono p q [] h s = tt
SortedFrom-mono p q (ch ∷ chs) h s = (omega (arith, s.0), s.1)

-- A group of one tier before the later tiers.
SortedFrom-append :
    (p : ℕ) (group chs : List UpstreamChannel)
    → All (λ ch. tier ch ≡ p) group
    → SortedFrom p chs
    → SortedFrom p (group ++ chs)
SortedFrom-append p [] chs a s = s
SortedFrom-append p (ch ∷ group) chs a s =
    (omega (arith, a.0), rw a.0 (SortedFrom-append p group chs a.1 s))

-- The tiers are visited in increasing order, each once.
abbrev IncreasingFrom : ℕ → List ℕ → Type 0
IncreasingFrom p [] = Unit {0}
IncreasingFrom p (q ∷ qs) = (p ≤ q) × IncreasingFrom (q + 1) qs

insert_tier-IncreasingFrom :
    (p q : ℕ) (qs : List ℕ) → p ≤ q → IncreasingFrom p qs → IncreasingFrom p (insert_tier q qs)
unfolding insert_tier
insert_tier-IncreasingFrom p q [] h i = (h, tt)
insert_tier-IncreasingFrom p q (r ∷ qs) h i =
    ground (arith, i.0, i.1, insert_tier-IncreasingFrom (r + 1) q qs)

pub tiers-IncreasingFrom : (chs : List UpstreamChannel) → IncreasingFrom 0 (tiers chs)
unfolding tiers
tiers-IncreasingFrom [] = tt
tiers-IncreasingFrom (ch ∷ chs) =
    insert_tier-IncreasingFrom 0 (tier ch) (tiers chs) (omega arith) (tiers-IncreasingFrom chs)

All-tt : (chs : List UpstreamChannel) → All (λ ch. Unit {0}) chs
All-tt [] = tt
All-tt (ch ∷ chs) = (tt, All-tt chs)

pub order_tiers-SortedFrom :
    (index : List UpstreamChannel → ℕ) (breakers : Breakers) (now : ℕ) (pool : List UpstreamChannel)
    (p : ℕ) (ps : List ℕ)
    → IncreasingFrom p ps
    → SortedFrom p (order_tiers index breakers now pool ps)
unfolding order_tiers
order_tiers-SortedFrom index breakers now pool p [] i = tt
order_tiers-SortedFrom index breakers now pool p (q ∷ ps) i =
    let later = order_tiers-SortedFrom index breakers now pool (q + 1) ps i.1 in
    let grouped = filter-All (λ ch. Unit {0}) (in_tier q) pool (All-tt pool) in
    let same = schedule_healthy-All _ _ _ (
      All-imp _ (λ ch. tier ch ≡ q) _ (λ ch h. ground (arith, h.0, h.1))
        (filter-All _ (candidate_available breakers now) _ grouped)) in
    SortedFrom-mono p q _ i.0
      (SortedFrom-append q _ _ same (SortedFrom-mono q (q + 1) _ (omega arith) later))
