-- ===== src/Security/Admission/Locking.antt =====
-- When a client is locked out, and how large the table grows (security/admission.go).
use relay_gateway.Common.Base.{
  ℕ, ◌-◌, ◌≤◌, ◌<◌, ◌≡◌, inl, inr, Bool, true, false, Option, none, List, [], ◌∷◌, arith,
  Option-cases,
}
use relay_gateway.Common.Lists.{length, set}
use relay_gateway.Common.Text.{Text}
use relay_gateway.Security.Admission.{
  LoginBucket, LoginAttempts, max_login_buckets, keep_recent, prune_login_bucket,
  login_bucket_allowed, record_login_bucket, remove_item, prune_items, oldest_idle,
  evict_oldest_login_bucket, prune_login_attempts, insert_bucket, make_login_bucket, admit,
  begin_login_attempt, finish_attempt, finish, deref, store_result, record_login_result,
  LoginAttempt,
}

-- What may happen to the bucket of a client without a success: an attempt is begun or the bucket is
-- pruned, an attempt fails, or one ends without a result.
pub data BucketCall : Type 0 where
  starts fails : ℕ → BucketCall
  cancels : BucketCall

unfoldable pub apply_bucket : LoginBucket → BucketCall → LoginBucket
apply_bucket b (starts now) = (login_bucket_allowed b now).0
apply_bucket b (fails now) = record_login_bucket b false now
apply_bucket b cancels = record b { in_flight = b.in_flight - 1 }

unfoldable pub run_bucket : LoginBucket → List BucketCall → LoginBucket
unfolding apply_bucket
run_bucket b [] = b
run_bucket b (call ∷ calls) = run_bucket (apply_bucket b call) calls

-- The failures come no earlier than a given time.
abbrev pub NotBefore : ℕ → List BucketCall → Type 0
NotBefore now [] = Unit {0}
NotBefore now (fails t ∷ calls) = (now ≤ t) × NotBefore now calls
NotBefore now (call ∷ calls) = NotBefore now calls

-- After a success, a client with fewer than five attempts under way is let in at any time, whatever
-- its earlier failures and lock.
pub success_unlocks :
    (b : LoginBucket) (now later : ℕ)
    → b.in_flight < 5
    → (login_bucket_allowed (record_login_bucket b true now) later).1 ≡ (true, 0)
unfolding login_bucket_allowed record_login_bucket prune_login_bucket keep_recent
success_unlocks b now later h = ground arith

length-prune_items :
    (now : ℕ) (items : List (Text × ℕ)) (heap : List LoginBucket)
    → length (prune_items now items heap).0 ≤ length items
unfolding prune_items
length-prune_items now [] heap = omega arith
length-prune_items now ((k, a) ∷ rest) heap =
    ground (arith, length-prune_items now rest (set heap a (prune_login_bucket (deref heap a) now)))

length-remove_item :
    (k : Text) (items : List (Text × ℕ)) → length (remove_item k items) ≤ length items
unfolding remove_item
length-remove_item k [] = omega arith
length-remove_item k ((j, a) ∷ m) = ground (arith, length-remove_item k m)

length-evict : (t : LoginAttempts) → length (evict_oldest_login_bucket t).items ≤ length t.items
unfolding evict_oldest_login_bucket
length-evict t = elim (Option-cases (oldest_idle t.items t.heap none)) [
  | inl e ↦ rw (e, evict_oldest_login_bucket) (omega arith)
  | inr (x, e) ↦ rw (e, evict_oldest_login_bucket) (length-remove_item x.0 t.items)
]

abbrev pub Fits : LoginAttempts → Type 0
Fits t = length t.items ≤ max_login_buckets

length-prune :
    (t : LoginAttempts) (now : ℕ) → length (prune_login_attempts t now).items ≤ length t.items
unfolding prune_login_attempts
length-prune t now = length-prune_items now t.items t.heap

make-Fits :
    (t : LoginAttempts) (key : Text) (now : ℕ) → Fits t → Fits (make_login_bucket t key now).0
unfolding make_login_bucket insert_bucket
make-Fits t key now h =
    let pruned = prune_login_attempts t now in
    ground (arith, length-prune t now, length-evict pruned)

begin-Fits :
    (t : LoginAttempts) (key : Text) (now : ℕ) → Fits t → Fits (begin_login_attempt t key now).0
unfolding begin_login_attempt admit
begin-Fits t key now h = ground (arith, make-Fits t key now h)

finish_attempt-Fits :
    (t : LoginAttempts) (a : LoginAttempt) (success : Option Bool) (now : ℕ)
    → Fits t
    → Fits (finish_attempt t a success now)
unfolding finish_attempt
finish_attempt-Fits t a success now h = ground (arith, length-remove_item a.key t.items)

store_result-Fits :
    (t : LoginAttempts) (key : Text) (a : ℕ) (success : Bool) (now : ℕ)
    → Fits t
    → Fits (store_result t key a success now)
unfolding store_result
store_result-Fits t key a success now h = ground (arith, length-remove_item key t.items)

record_login_result-Fits :
    (t : LoginAttempts) (key : Text) (success : Bool) (now : ℕ)
    → Fits t
    → Fits (record_login_result t key success now)
unfolding record_login_result
record_login_result-Fits t key success now h =
    grind (arith, make-Fits t key now h, store_result-Fits)

-- Every operation on the table keeps it within 4096 buckets: beginning an attempt, finishing one (with
-- a result or by cancelling, also twice) and recording a result directly.
pub table_bounded :
    (t : LoginAttempts) (key : Text) (a : LoginAttempt) (o : Option Bool) (success : Bool) (now : ℕ)
    → length t.items ≤ max_login_buckets
    → (length (begin_login_attempt t key now).0.items ≤ max_login_buckets)
      × (length (finish t a o now).0.items ≤ max_login_buckets)
      × (length (record_login_result t key success now).items ≤ max_login_buckets)
unfolding finish
table_bounded t key a o success now h = (
  begin-Fits t key now h,
  ground (arith, finish_attempt-Fits t a o now h),
  record_login_result-Fits t key success now h,
)
