-- ===== src/Security/Admission/Buckets.antt =====
-- Reading and writing the buckets by address (security/admission.go).
use relay_gateway.Common.Base.{
  ℕ, zero, suc, ◌+◌, ◌≤◌, ◌<◌, ◌≡◌, refl, ap, some, List, [], ◌∷◌, ◌++◌, arith, ◌==◌, if◌then◌else◌,
}
use relay_gateway.Common.Lists.{length, set}
use relay_gateway.Common.Text.{Text}
use relay_gateway.Security.Admission.{
  LoginBucket, deref, keep_recent, prune_login_bucket, remove_item, find_item,
}

-- The limit of five, for one bucket and for all.
abbrev pub IsWithin : LoginBucket → Type 0
IsWithin b = length b.failures + b.in_flight ≤ 5

abbrev pub AllWithin : List LoginBucket → Type 0
AllWithin [] = Unit {0}
AllWithin (b ∷ h) = IsWithin b × AllWithin h

pub set-AllWithin :
    (h : List LoginBucket) (a : ℕ) (b : LoginBucket)
    → IsWithin b
    → AllWithin h
    → AllWithin (set h a b)
set-AllWithin [] a b w hs = tt
set-AllWithin (c ∷ h) zero b w hs = (w, hs.1)
set-AllWithin (c ∷ h) (suc a) b w hs = (hs.0, set-AllWithin h a b w hs.1)

pub append-AllWithin :
    (h : List LoginBucket) (b : LoginBucket) → IsWithin b → AllWithin h → AllWithin (h ++ b ∷ [])
append-AllWithin [] b w hs = (w, tt)
append-AllWithin (c ∷ h) b w hs = (hs.0, append-AllWithin h b w hs.1)

pub deref-IsWithin : (h : List LoginBucket) (a : ℕ) → AllWithin h → IsWithin (deref h a)
deref-IsWithin [] a hs = omega arith
deref-IsWithin (c ∷ h) zero hs = hs.0
deref-IsWithin (c ∷ h) (suc a) hs = deref-IsWithin h a hs.1

-- Writing a bucket back with as many attempts under way changes no count.
pub deref-set_kept :
    (h : List LoginBucket) (i a : ℕ) (b : LoginBucket)
    → b.in_flight ≡ (deref h i).in_flight
    → (deref (set h i b) a).in_flight ≡ (deref h a).in_flight
deref-set_kept [] i a b e = refl
deref-set_kept (c ∷ h) zero zero b e = e
deref-set_kept (c ∷ h) zero (suc a) b e = refl
deref-set_kept (c ∷ h) (suc i) zero b e = refl
deref-set_kept (c ∷ h) (suc i) (suc a) b e = deref-set_kept h i a b e

-- Counting one more, at an address in use.
pub deref-set_more :
    (h : List LoginBucket) (i a : ℕ) (b : LoginBucket)
    → i < length h
    → b.in_flight ≡ (deref h i).in_flight + 1
    → (deref (set h i b) a).in_flight ≡ (if i == a then 1 else 0) + (deref h a).in_flight
deref-set_more [] i a b l e = absurd (omega arith)
deref-set_more (c ∷ h) zero zero b l e = omega arith
deref-set_more (c ∷ h) zero (suc a) b l e = ground arith
deref-set_more (c ∷ h) (suc i) zero b l e = ground arith
deref-set_more (c ∷ h) (suc i) (suc a) b l e = ground (arith, deref-set_more h i a b)

pub deref-append :
    (h : List LoginBucket) (a : ℕ) (b : LoginBucket)
    → b.in_flight ≡ 0
    → (deref (h ++ b ∷ []) a).in_flight ≡ (deref h a).in_flight
deref-append [] zero b e = e
deref-append [] (suc a) b e = refl
deref-append (c ∷ h) zero b e = refl
deref-append (c ∷ h) (suc a) b e = deref-append h a b e

pub length-keep_recent : (now : ℕ) (fs : List ℕ) → length (keep_recent now fs) ≤ length fs
unfolding keep_recent
length-keep_recent now [] = omega arith
length-keep_recent now (f ∷ fs) = ground (arith, length-keep_recent now fs)

pub prune-IsWithin : (b : LoginBucket) (now : ℕ) → IsWithin b → IsWithin (prune_login_bucket b now)
unfolding prune_login_bucket
prune-IsWithin b now w = omega (arith, length-keep_recent now b.failures)

pub deref-append_last :
    (h : List LoginBucket) (b : LoginBucket) → deref (h ++ b ∷ []) (length h) ≡ b
deref-append_last [] b = refl
deref-append_last (c ∷ h) b = deref-append_last h b

pub length-set : (h : List LoginBucket) (i : ℕ) (b : LoginBucket) → length (set h i b) ≡ length h
length-set [] i b = refl
length-set (c ∷ h) zero b = refl
length-set (c ∷ h) (suc i) b = ap suc (length-set h i b)

-- Counting one less, where the bucket counted at least one.
pub deref-set_less :
    (h : List LoginBucket) (i a : ℕ) (b : LoginBucket)
    → b.in_flight + 1 ≡ (deref h i).in_flight
    → (if i == a then 1 else 0) + (deref (set h i b) a).in_flight ≡ (deref h a).in_flight
deref-set_less [] i a b e = absurd (omega arith)
deref-set_less (c ∷ h) zero zero b e = omega arith
deref-set_less (c ∷ h) zero (suc a) b e = ground arith
deref-set_less (c ∷ h) (suc i) zero b e = ground arith
deref-set_less (c ∷ h) (suc i) (suc a) b e = ground (arith, deref-set_less h i a b)

-- Every address in the table is that of a bucket.
abbrev pub AllBelow : ℕ → List (Text × ℕ) → Type 0
AllBelow n [] = Unit {0}
AllBelow n ((k, a) ∷ m) = (a < n) × AllBelow n m

pub AllBelow-mono :
    (m n : ℕ) (items : List (Text × ℕ)) → m ≤ n → AllBelow m items → AllBelow n items
AllBelow-mono m n [] h b = tt
AllBelow-mono m n ((k, a) ∷ items) h b = (omega (arith, b.0), AllBelow-mono m n items h b.1)

pub AllBelow-remove_item :
    (n : ℕ) (k : Text) (items : List (Text × ℕ))
    → AllBelow n items
    → AllBelow n (remove_item k items)
unfolding remove_item
AllBelow-remove_item n k [] b = tt
AllBelow-remove_item n k ((j, a) ∷ items) b =
    ground (arith, AllBelow-remove_item n k items b.1, b.0)

pub AllBelow-find_item :
    (n : ℕ) (k : Text) (items : List (Text × ℕ)) {a : ℕ}
    → AllBelow n items
    → find_item k items ≡ some a
    → a < n
unfolding find_item
AllBelow-find_item n k [] b e = cc
AllBelow-find_item n k ((j, c) ∷ items) {a = a} b e =
    ground (arith, AllBelow-find_item n k items {a = a} b.1, b.0)

pub deref-set_self :
    (h : List LoginBucket) (i : ℕ) (b : LoginBucket) → i < length h → deref (set h i b) i ≡ b
deref-set_self [] i b l = absurd (omega arith)
deref-set_self (c ∷ h) zero b l = refl
deref-set_self (c ∷ h) (suc i) b l = deref-set_self h i b (omega arith)
