-- ===== src/Security/Admission/Account.antt =====
-- The table that counts the attempts under way right, and what it keeps through pruning, eviction and
-- making a bucket (security/admission.go).
use relay_gateway.Common.Base.{
  ℕ, ◌<◌, ◌≡◌, refl, ◌∙◌, inl, inr, Bool, true, false, Option, none, some, List, [], ◌∷◌, ◌++◌,
  arith, Bool-cases, Option-cases, if◌then◌else◌,
}
use relay_gateway.Common.Lists.{length, length-append, set}
use relay_gateway.Common.Text.{Text}
use relay_gateway.Security.Admission.{
  LoginBucket, LoginAttempts, deref, prune_login_bucket, prune_items, evict_oldest_login_bucket,
  oldest_idle, prune_login_attempts, insert_bucket, make_login_bucket, is_full,
}
use relay_gateway.Security.Admission.Buckets.{
  AllWithin, set-AllWithin, append-AllWithin, deref-IsWithin, deref-set_kept, deref-append,
  prune-IsWithin, deref-append_last, length-set, AllBelow, AllBelow-mono, AllBelow-remove_item,
}

-- A table whose buckets keep to the limit, with the attempts under way rest `flying` counts them.
pub record Ok (t : LoginAttempts) (flying : ℕ → ℕ) : Type 0 where
  pub within : AllWithin t.heap
  pub addressed : AllBelow (length t.heap) t.items
  pub counted : (a : ℕ) → (deref t.heap a).in_flight ≡ flying a

prune_items-AllBelow :
    (n now : ℕ) (items : List (Text × ℕ)) (heap : List LoginBucket)
    → AllBelow n items
    → AllBelow n (prune_items now items heap).0
unfolding prune_items
prune_items-AllBelow n now [] heap b = tt
prune_items-AllBelow n now ((k, a) ∷ rest) heap b = ground (
  arith,
  b.0,
  prune_items-AllBelow n now rest (set heap a (prune_login_bucket (deref heap a) now)) b.1,
)

-- Pruning changes failures only.
record SameHeap (h h' : List LoginBucket) : Type 0 where
  still_within : AllWithin h → AllWithin h'
  same_length : length h' ≡ length h
  same_count : (a : ℕ) → (deref h' a).in_flight ≡ (deref h a).in_flight

prune_items-SameHeap :
    (now : ℕ) (items : List (Text × ℕ)) (heap : List LoginBucket)
    → SameHeap heap (prune_items now items heap).1
unfolding prune_items
prune_items-SameHeap now [] heap = record {
  still_within = λ w. w;
  same_length = refl;
  same_count = λ a. refl;
}
prune_items-SameHeap now ((k, a) ∷ rest) heap =
    let b = prune_login_bucket (deref heap a) now in
    let s = prune_items-SameHeap now rest (set heap a b) in
    record {
      still_within = λ w.
          s.still_within (
            set-AllWithin heap a b (prune-IsWithin (deref heap a) now (deref-IsWithin heap a w)) w);
      same_length = s.same_length ∙ length-set heap a b;
      same_count =
          λ x. s.same_count x ∙ deref-set_kept heap a x b (unfold prune_login_bucket in refl);
    }

prune-Ok :
    (t : LoginAttempts) (now : ℕ) (flying : ℕ → ℕ)
    → Ok t flying
    → Ok (prune_login_attempts t now) flying
unfolding prune_login_attempts
prune-Ok t now flying ok =
    let s = prune_items-SameHeap now t.items t.heap in
    record {
      within = s.still_within ok.within;
      addressed =
          rw (s.same_length) (prune_items-AllBelow (length t.heap) now t.items t.heap ok.addressed);
      counted = λ a. s.same_count a ∙ ok.counted a;
    }

evict-Ok :
    (t : LoginAttempts) (flying : ℕ → ℕ) → Ok t flying → Ok (evict_oldest_login_bucket t) flying
unfolding evict_oldest_login_bucket
evict-Ok t flying ok = elim (Option-cases (oldest_idle t.items t.heap none)) [
  | inl e ↦ rw (e, evict_oldest_login_bucket) ok
  | inr (x, e) ↦
      rw (e, evict_oldest_login_bucket)
        (record {
          within = ok.within;
          addressed = AllBelow-remove_item (length t.heap) x.0 t.items ok.addressed;
          counted = ok.counted;
        })
]

-- A bucket that was made is empty, and no attempt under way has it.
abbrev pub MadeOk : LoginAttempts × Option ℕ → (ℕ → ℕ) → Type 0
MadeOk (t, none) flying = Ok t flying
MadeOk (t, some a) flying =
    Ok t flying
    × (a < length t.heap)
    × ((deref t.heap a).failures ≡ [])
    × ((deref t.heap a).in_flight ≡ 0)

insert-MadeOk :
    (t : LoginAttempts) (key : Text) (now : ℕ) (flying : ℕ → ℕ)
    → Ok t flying
    → MadeOk (insert_bucket t key now) flying
unfolding insert_bucket
insert-MadeOk t key now flying ok =
    let b : LoginBucket = record { failures = []; locked_to = 0; last_seen = now; in_flight = 0 } in
    let grown = length-append t.heap (b ∷ []) in
    let last = deref-append_last t.heap b in
    (
      record {
        within = append-AllWithin t.heap b (omega arith) ok.within;
        addressed = (
          omega (arith, grown),
          AllBelow-mono (length t.heap) (length (t.heap ++ b ∷ [])) t.items (omega (arith, grown))
              ok.addressed,
        );
        counted = λ a. deref-append t.heap a b refl ∙ ok.counted a;
      },
      omega (arith, grown),
      rw last refl,
      rw last refl,
    )

place-MadeOk :
    (t : LoginAttempts) (key : Text) (now : ℕ) (flying : ℕ → ℕ)
    → Ok t flying
    → MadeOk (if is_full t then (t, none) else insert_bucket t key now) flying
place-MadeOk t key now flying ok = elim (Bool-cases (is_full t)) [
  | inl full ↦ rw full ok
  | inr room ↦ rw room (insert-MadeOk t key now flying ok)
]

either-Ok :
    (c : Bool) (t u : LoginAttempts) (flying : ℕ → ℕ)
    → Ok t flying
    → Ok u flying
    → Ok (if c then t else u) flying
either-Ok true t u flying ot ou = ot
either-Ok false t u flying ot ou = ou

pub make-MadeOk :
    (t : LoginAttempts) (key : Text) (now : ℕ) (flying : ℕ → ℕ)
    → Ok t flying
    → MadeOk (make_login_bucket t key now) flying
unfolding make_login_bucket
make-MadeOk t key now flying ok =
    let pruned = prune_login_attempts t now in
    let p = prune-Ok t now flying ok in
    elim (Bool-cases (is_full t)) [
      | inr room ↦ rw room (insert-MadeOk t key now flying ok)
      | inl full ↦ rw full (
          place-MadeOk _ key now flying (
            either-Ok (is_full pruned) (evict_oldest_login_bucket pruned) pruned flying
              (evict-Ok pruned flying p) p))
    ]
