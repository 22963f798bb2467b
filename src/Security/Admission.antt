-- ===== src/Security/Admission.antt =====
-- The limits on password verification (security/admission.go). A time is a number of nanoseconds since
-- the zero `time.Time`, and `time.Now()` is the argument `now`. The table of buckets is an association
-- list by attempt key; a bucket that an attempt points to has an address in `heap`, since an attempt
-- keeps its bucket when the table drops it.
pub mod Buckets
pub mod Gate
pub mod Locking
pub mod Account
pub mod Begin
pub mod Slots
pub mod Tests
use relay_gateway.Common.Base.{
  ℕ, zero, suc, ◌+◌, ◌-◌, Bool, true, false, not, ◌&&◌, ◌||◌, Option, none, some, List, [], ◌∷◌,
  ◌++◌, ltb, leb, ◌==◌, if◌then◌else◌,
}
use relay_gateway.Common.Lists.{length, get_elem?, set}
use relay_gateway.Common.Text.{Text, text_eq, is_empty}

abbrev pub second : ℕ
second = 1000000000

-- `loginFailureWindow`, 15 minutes.
abbrev pub login_failure_window : ℕ
login_failure_window = 900000000000

abbrev pub max_login_buckets : ℕ
max_login_buckets = 4096

pub record LoginBucket : Type 0 where
  pub failures : List ℕ
  pub locked_to : ℕ
  pub last_seen : ℕ
  pub in_flight : ℕ

-- `loginAttempts`, its buckets by address. A bucket that is no longer used stays in `heap`.
pub record LoginAttempts : Type 0 where
  pub items : List (Text × ℕ)
  pub heap : List LoginBucket

-- `now.Add(-window)` before the zero time is earlier than every failure, so `now` is shifted instead.
unfoldable pub keep_recent : ℕ → List ℕ → List ℕ
keep_recent now [] = []
keep_recent now (at ∷ rest) =
    let kept = keep_recent now rest in
    if ltb now (at + login_failure_window) then at ∷ kept else kept

unfoldable pub prune_login_bucket : LoginBucket → ℕ → LoginBucket
unfolding keep_recent
prune_login_bucket b now = record b { failures = keep_recent now b.failures }

-- The answer, with the wait where it is a refusal, and the pruned bucket.
unfoldable pub login_bucket_allowed : LoginBucket → ℕ → LoginBucket × (Bool × ℕ)
login_bucket_allowed b now =
    let b' = prune_login_bucket b now in
    let answer : Bool × ℕ =
      if ltb now b'.locked_to
      then (false, b'.locked_to - now)
      else if leb 5 (length b'.failures + b'.in_flight)
      then (false, second)
      else (true, 0) in
    (b', answer)

unfoldable pub record_login_bucket : LoginBucket → Bool → ℕ → LoginBucket
record_login_bucket b success now =
    let seen = record b { last_seen = now } in
    let pruned = prune_login_bucket seen now in
    let failures' = pruned.failures ++ now ∷ [] in
    let failed = record pruned { failures = failures' } in
    if success
    then record seen { failures = []; locked_to = 0 }
    else if leb 5 (length failures')
    then record failed { locked_to = now + login_failure_window }
    else failed

unfoldable pub find_item : Text → List (Text × ℕ) → Option ℕ
find_item k [] = none
find_item k ((j, a) ∷ m) = if text_eq j k then some a else find_item k m

unfoldable pub remove_item : Text → List (Text × ℕ) → List (Text × ℕ)
remove_item k [] = []
remove_item k ((j, a) ∷ m) =
    let rest = remove_item k m in if text_eq j k then rest else (j, a) ∷ rest

abbrev pub empty_bucket : LoginBucket
empty_bucket = record { failures = []; locked_to = 0; last_seen = 0; in_flight = 0 }

-- `*b`; every address in use is below the length of the heap.
abbrev pub deref : List LoginBucket → ℕ → LoginBucket
deref [] a = empty_bucket
deref (b ∷ h) zero = b
deref (b ∷ h) (suc a) = deref h a

-- The loop of `pruneLoginAttempts`: every bucket in the table is pruned, and an idle one is dropped.
unfoldable pub prune_items :
    ℕ → List (Text × ℕ) → List LoginBucket → List (Text × ℕ) × List LoginBucket
prune_items now [] heap = ([], heap)
prune_items now ((k, a) ∷ rest) heap =
    let b = prune_login_bucket (deref heap a) now in
    let (items, heap') = prune_items now rest (set heap a b) in
    let idle = b.in_flight == 0 && (not (ltb now b.locked_to) && length b.failures == 0) in
    (if idle then items else (k, a) ∷ items, heap')

-- The scan of `evictOldestLoginBucket`; `none` is the empty `oldestKey`.
unfoldable pub oldest_idle :
    List (Text × ℕ) → List LoginBucket → Option (Text × ℕ) → Option (Text × ℕ)
oldest_idle [] heap best = best
oldest_idle ((k, a) ∷ rest) heap best =
    let b = deref heap a in
    let better : Bool = elim best [ none ↦ true | some (j, seen) ↦ ltb b.last_seen seen ] in
    oldest_idle rest heap (if b.in_flight == 0 && better then some (k, b.last_seen) else best)

unfoldable pub evict_oldest_login_bucket : LoginAttempts → LoginAttempts
evict_oldest_login_bucket t = elim (oldest_idle t.items t.heap none) [
  | none ↦ t
  | some (k, seen) ↦ record t { items = remove_item k t.items }
]

unfoldable pub prune_login_attempts : LoginAttempts → ℕ → LoginAttempts
prune_login_attempts t now =
    let (items, heap) = prune_items now t.items t.heap in record { items = items; heap = heap }

-- The new bucket's address is the end of the heap.
unfoldable pub insert_bucket : LoginAttempts → Text → ℕ → LoginAttempts × Option ℕ
insert_bucket t key now =
    let b : LoginBucket = record { failures = []; locked_to = 0; last_seen = now; in_flight = 0 } in
    (
      record { items = (key, length t.heap) ∷ t.items; heap = t.heap ++ b ∷ [] },
      some (length t.heap),
    )

abbrev pub is_full : LoginAttempts → Bool
is_full t = leb max_login_buckets (length t.items)

unfoldable pub make_login_bucket : LoginAttempts → Text → ℕ → LoginAttempts × Option ℕ
make_login_bucket t key now =
    if not (is_full t)
    then insert_bucket t key now
    else let pruned = prune_login_attempts t now in
      let evicted = if is_full pruned then evict_oldest_login_bucket pruned else pruned in
      if is_full evicted then (evicted, none) else insert_bucket evicted key now

-- An attempt that was let in; `done` is its `sync.Once`.
pub record LoginAttempt : Type 0 where
  pub key : Text
  pub bucket : ℕ
  pub done : Bool

reserve : LoginAttempts → Text → ℕ → ℕ → LoginAttempts
reserve t key a now =
    let b = deref t.heap a in
    record t { heap = set t.heap a (record b { in_flight = b.in_flight + 1; last_seen = now }) }

-- `BeginLoginAttempt`: the attempt, or how long to wait.
pub data Admission : Type 0 where
  admitted : LoginAttempt → Admission
  refused : ℕ → Admission

unfoldable pub admit : LoginAttempts → Text → ℕ → ℕ → LoginAttempts × Admission
unfolding reserve
admit t key a now = (reserve t key a now, admitted (record { key = key; bucket = a; done = false }))

unfoldable pub begin_login_attempt : LoginAttempts → Text → ℕ → LoginAttempts × Admission
begin_login_attempt t key now = elim (find_item key t.items) [
  | some a ↦
      let (b, answer) = login_bucket_allowed (deref t.heap a) now in
      let t' = record t { heap = set t.heap a b } in
      if answer.0 then admit t' key a now else (t', refused answer.1)
  | none ↦
      let (t', made) = make_login_bucket t key now in
      elim made [ none ↦ (t', refused second) | some a ↦ admit t' key a now ]
]

abbrev forget_idle : LoginAttempts → Text → LoginBucket → LoginAttempts
forget_idle t key b =
    if b.in_flight == 0 && length b.failures == 0
    then record t { items = remove_item key t.items }
    else t

-- What finishing does to the bucket.
unfoldable pub settle_bucket : LoginBucket → Option Bool → ℕ → LoginBucket
settle_bucket b success now =
    let released = record b { in_flight = b.in_flight - 1 } in
    elim success [ none ↦ released | some s ↦ record_login_bucket released s now ]

-- The body that `finish` runs once: `none` cancels, `some success` records a result. `InFlight` is at
-- least 1 here, since the attempt itself was counted.
unfoldable pub finish_attempt : LoginAttempts → LoginAttempt → Option Bool → ℕ → LoginAttempts
finish_attempt t a success now =
    let b' = settle_bucket (deref t.heap a.bucket) success now in
    forget_idle (record t { heap = set t.heap a.bucket b' }) a.key b'

unfoldable pub finish :
    LoginAttempts → LoginAttempt → Option Bool → ℕ → LoginAttempts × LoginAttempt
unfolding finish_attempt
finish t a success now =
    (if a.done then t else finish_attempt t a success now, record a { done = true })

unfoldable pub store_result : LoginAttempts → Text → ℕ → Bool → ℕ → LoginAttempts
store_result t key a success now =
    let b = record_login_bucket (deref t.heap a) success now in
    forget_idle (record t { heap = set t.heap a b }) key b

unfoldable pub record_login_result : LoginAttempts → Text → Bool → ℕ → LoginAttempts
record_login_result t key success now = elim (find_item key t.items) [
  | some a ↦ store_result t key a success now
  | none ↦
      if success
      then t
      else let (t', made) = make_login_bucket t key now in
        elim made [ none ↦ t' | some a ↦ store_result t' key a success now ]
]

-- `passwordBudget`: a channel with `limit` places, of which `used` are taken.
pub record PasswordBudget : Type 0 where
  pub limit : ℕ
  pub used : ℕ

pub data AuthError : Type 0 where
  auth_busy context_done : AuthError

-- The refusal, or `none` where a place was taken.
unfoldable pub acquire_password_work : Bool → PasswordBudget → PasswordBudget × Option AuthError
acquire_password_work cancelled b =
    if cancelled
    then (b, some context_done)
    else if ltb b.used b.limit
    then (record b { used = b.used + 1 }, none)
    else (b, some auth_busy)

-- The release function that `acquire` returns.
unfoldable pub release_password_work : PasswordBudget → PasswordBudget
release_password_work b = record b { used = b.used - 1 }

-- The limit from `RELAY_AUTH_HASH_CONCURRENCY`, where that reads as a number.
unfoldable pub hash_concurrency : Option ℕ → ℕ
hash_concurrency none = 2
hash_concurrency (some configured) = if leb 1 configured && leb configured 32 then configured else 2
