-- ===== src/Router/Locks/Counting.antt =====
-- Counting the goroutines at an item (router/profile_idempotency.go).
use relay_gateway.Common.Base.{
  ℕ, zero, suc, ◌+◌, ◌≤◌, ◌≡◌, ◌≢◌, refl, ap, ◌⊎◌, inl, inr, Bool, true, false, not, ◌&&◌, some,
  List, [], ◌∷◌, ◌==◌, arith,
}
use relay_gateway.Common.Lists.{get_elem?, set}
use relay_gateway.Router.Locks.{Phase, holding, gone, Holder}

abbrev pub bit : Bool → ℕ
bit true = 1
bit false = 0

abbrev pub is_gone : Phase → Bool
is_gone gone = true
is_gone _ = false

abbrev pub is_holding : Phase → Bool
is_holding holding = true
is_holding _ = false

-- The goroutines that hold a reference, and the semaphore, of the item at an address.
abbrev pub uses : ℕ → Holder → Bool
uses a h = h.address == a && not (is_gone h.phase)

abbrev pub holds : ℕ → Holder → Bool
holds a h = h.address == a && is_holding h.phase

unfoldable pub count : (Holder → Bool) → List Holder → ℕ
count q [] = 0
count q (h ∷ hs) = bit (q h) + count q hs

pub count-set :
    (q : Holder → Bool) (hs : List Holder) (i : ℕ) (h h' : Holder)
    → get_elem? hs i ≡ some h
    → count q (set hs i h') + bit (q h) ≡ count q hs + bit (q h')
unfolding count
count-set q [] i h h' e = cc
count-set q (x ∷ hs) zero h h' e = let same : x ≡ h = some_inj e in rw same (omega arith)
  where
    some_inj : some x ≡ some h → x ≡ h
    some_inj e = cc
count-set q (x ∷ hs) (suc i) h h' e = omega (arith, count-set q hs i h h' e)

pub count-member :
    (q : Holder → Bool) (hs : List Holder) (i : ℕ) (h : Holder)
    → get_elem? hs i ≡ some h
    → q h ≡ true
    → 1 ≤ count q hs
unfolding count
count-member q [] i h e t = cc
count-member q (x ∷ hs) zero h e t = ground arith
count-member q (x ∷ hs) (suc i) h e t = omega (arith, count-member q hs i h e t)

pub count-pair :
    (q : Holder → Bool) (hs : List Holder) (i j : ℕ) (h h' : Holder)
    → get_elem? hs i ≡ some h
    → get_elem? hs j ≡ some h'
    → q h ≡ true
    → q h' ≡ true
    → i ≢ j
    → 2 ≤ count q hs
unfolding count
count-pair q [] i j h h' e f t u d = cc
count-pair q (x ∷ hs) zero zero h h' e f t u d = absurd (d refl)
count-pair q (x ∷ hs) zero (suc j) h h' e f t u d =
    let b : q x ≡ true = ground arith in rw b (omega (arith, count-member q hs j h' f u))
count-pair q (x ∷ hs) (suc i) zero h h' e f t u d =
    let b : q x ≡ true = ground arith in rw b (omega (arith, count-member q hs i h e t))
count-pair q (x ∷ hs) (suc i) (suc j) h h' e f t u d =
    omega (arith, count-pair q hs i j h h' e f t u (λ p. d (ap suc p)))

pub count-none :
    (q : Holder → Bool) (hs : List Holder)
    → ((i : ℕ) (h : Holder) → get_elem? hs i ≡ some h → q h ≡ false)
    → count q hs ≡ 0
unfolding count
count-none q [] f = refl
count-none q (x ∷ hs) f = rw (f 0 x refl) (omega (arith, count-none q hs (λ i. f (suc i))))

-- A reading after a write.
pub get_elem?-set :
    (hs : List Holder) (i j : ℕ) (h' x : Holder)
    → get_elem? (set hs i h') j ≡ some x
    → (x ≡ h') ⊎ (get_elem? hs j ≡ some x)
get_elem?-set [] i j h' x e = cc
get_elem?-set (y ∷ hs) zero zero h' x e = inl (ground arith)
get_elem?-set (y ∷ hs) zero (suc j) h' x e = inr e
get_elem?-set (y ∷ hs) (suc i) zero h' x e = inr e
get_elem?-set (y ∷ hs) (suc i) (suc j) h' x e = get_elem?-set hs i j h' x e
