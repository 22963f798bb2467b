-- ===== src/Security/Admission/Begin.antt =====
-- Beginning and finishing an attempt keep the count right (security/admission.go).
use relay_gateway.Common.Base.{
  ℕ, ◌+◌, ◌≤◌, ◌<◌, ◌≡◌, refl, ap, ◌∙◌, inl, inr, Bool, true, Option, none, some, [], ◌∷◌, ◌&&◌,
  arith, ◌==◌, Bool-cases, Option-cases, if◌then◌else◌,
}
use relay_gateway.Common.Lists.{length, length-append, set}
use relay_gateway.Common.Text.{Text}
use relay_gateway.Security.Admission.{
  LoginBucket, LoginAttempts, deref, prune_login_bucket, login_bucket_allowed, record_login_bucket,
  make_login_bucket, admit, admitted, refused, Admission, begin_login_attempt, finish_attempt,
  LoginAttempt, find_item, second, settle_bucket, keep_recent,
}
use relay_gateway.Security.Admission.Buckets.{
  IsWithin, set-AllWithin, deref-IsWithin, deref-set_kept, deref-set_more, prune-IsWithin,
  length-keep_recent, deref-set_self, length-set, deref-set_less, AllBelow-remove_item,
  AllBelow-find_item,
}
use relay_gateway.Security.Admission.Account.{Ok, MadeOk, make-MadeOk}

-- One more attempt under way at address `a`.
abbrev pub more : ℕ → (ℕ → ℕ) → ℕ → ℕ
more a flying x = (if a == x then 1 else 0) + flying x

admit-Ok :
    (t : LoginAttempts) (key : Text) (a now : ℕ) (flying : ℕ → ℕ)
    → Ok t flying
    → a < length t.heap
    → length (deref t.heap a).failures + (deref t.heap a).in_flight < 5
    → Ok (admit t key a now).0 (more a flying)
unfolding admit
admit-Ok t key a now flying ok l room = record {
  within = set-AllWithin t.heap a _ (omega arith) ok.within;
  addressed = rw (length-set t.heap a _) ok.addressed;
  counted = λ x.
      deref-set_more t.heap a x _ l refl ∙ ap (λ n. (if a == x then 1 else 0) + n) (ok.counted x);
}

-- The state after a call to begin, whichever way it was answered.
abbrev pub BegunOk : LoginAttempts × Admission → (ℕ → ℕ) → Type 0
BegunOk (t, admitted a) flying = Ok t (more a.bucket flying)
BegunOk (t, refused wait) flying = Ok t flying

admit-BegunOk :
    (t : LoginAttempts) (key : Text) (a now : ℕ) (flying : ℕ → ℕ)
    → Ok t flying
    → a < length t.heap
    → length (deref t.heap a).failures + (deref t.heap a).in_flight < 5
    → BegunOk (admit t key a now) flying
unfolding admit
admit-BegunOk t key a now flying ok l room = admit-Ok t key a now flying ok l room

-- The bucket that the check leaves is the pruned one, and it has room where the answer is yes.
allowed_pruned :
    (b : LoginBucket) (now : ℕ) → (login_bucket_allowed b now).0 ≡ prune_login_bucket b now
unfolding login_bucket_allowed
allowed_pruned b now = refl

allowed_room :
    (b : LoginBucket) (now : ℕ)
    → (login_bucket_allowed b now).1.0 ≡ true
    → length (login_bucket_allowed b now).0.failures + (login_bucket_allowed b now).0.in_flight < 5
unfolding login_bucket_allowed
allowed_room b now e = ground arith

pruned_count : (b : LoginBucket) (now : ℕ) → (prune_login_bucket b now).in_flight ≡ b.in_flight
unfolding prune_login_bucket
pruned_count b now = refl

pruned_at-Ok :
    (t : LoginAttempts) (a now : ℕ) (flying : ℕ → ℕ)
    → Ok t flying
    → Ok (record t { heap = set t.heap a (login_bucket_allowed (deref t.heap a) now).0 }) flying
pruned_at-Ok t a now flying ok = rw (allowed_pruned (deref t.heap a) now) (record {
  within =
      set-AllWithin t.heap a _
        (prune-IsWithin (deref t.heap a) now (deref-IsWithin t.heap a ok.within)) ok.within;
  addressed = rw (length-set t.heap a (prune_login_bucket (deref t.heap a) now)) ok.addressed;
  counted = λ x.
      deref-set_kept t.heap a x (prune_login_bucket (deref t.heap a) now)
        (pruned_count (deref t.heap a) now)
      ∙ ok.counted x;
})

begin_known-Ok :
    (t : LoginAttempts) (key : Text) (a now : ℕ) (flying : ℕ → ℕ)
    → Ok t flying
    → a < length t.heap
    → let (b, answer) = login_bucket_allowed (deref t.heap a) now in
      let t' = record t { heap = set t.heap a b } in
      BegunOk (if answer.0 then admit t' key a now else (t', refused answer.1)) flying
begin_known-Ok t key a now flying ok l =
    let b = (login_bucket_allowed (deref t.heap a) now).0 in
    let t' : LoginAttempts = record t { heap = set t.heap a b } in
    let ok' = pruned_at-Ok t a now flying ok in
    let here : deref t'.heap a ≡ b = deref-set_self t.heap a b l in
    elim (Bool-cases (login_bucket_allowed (deref t.heap a) now).1.0) [
      | inr no_room ↦ rw no_room ok'
      | inl room ↦ rw room (
          admit-BegunOk t' key a now flying ok' (rw (length-set t.heap a b) l)
            (rw here (allowed_room (deref t.heap a) now room)))
    ]

made-BegunOk :
    (r : LoginAttempts × Option ℕ) (key : Text) (now : ℕ) (flying : ℕ → ℕ)
    → MadeOk r flying
    → BegunOk (elim r.1 [ none ↦ (r.0, refused second) | some a ↦ admit r.0 key a now ]) flying
made-BegunOk (t, none) key now flying ok = ok
made-BegunOk (t, some a) key now flying ok =
    admit-BegunOk t key a now flying ok.0 ok.1 (rw (ok.2, ok.3) (omega arith))

pub begin-BegunOk :
    (t : LoginAttempts) (key : Text) (now : ℕ) (flying : ℕ → ℕ)
    → Ok t flying
    → BegunOk (begin_login_attempt t key now) flying
unfolding begin_login_attempt
begin-BegunOk t key now flying ok = elim (Option-cases (find_item key t.items)) [
  | inl e ↦
      rw (e, begin_login_attempt)
        (made-BegunOk (make_login_bucket t key now) key now flying
          (make-MadeOk t key now flying ok))
  | inr (a, e) ↦
      rw (e, begin_login_attempt)
        (begin_known-Ok t key a now flying ok
          (AllBelow-find_item (length t.heap) key t.items ok.addressed e))
]

settle_bucket-IsWithin :
    (b : LoginBucket) (o : Option Bool) (now : ℕ)
    → IsWithin b
    → 1 ≤ b.in_flight
    → IsWithin (settle_bucket b o now) × ((settle_bucket b o now).in_flight + 1 ≡ b.in_flight)
unfolding settle_bucket record_login_bucket prune_login_bucket
settle_bucket-IsWithin b o now w p = ground (
  arith,
  length-keep_recent now b.failures,
  length-append (keep_recent now b.failures) (now ∷ []),
)

-- One attempt less under way at address `a`.
pub finish_attempt-Ok :
    (t : LoginAttempts) (a : LoginAttempt) (o : Option Bool) (now : ℕ) (flying : ℕ → ℕ)
    → Ok t (more a.bucket flying)
    → Ok (finish_attempt t a o now) flying
unfolding finish_attempt
finish_attempt-Ok t a o now flying ok =
    let b = deref t.heap a.bucket in
    let b' = settle_bucket b o now in
    let busy : 1 ≤ b.in_flight = ground (arith, ok.counted a.bucket) in
    let (w, less) =
      settle_bucket-IsWithin b o now (deref-IsWithin t.heap a.bucket ok.within) busy in
    let counts : (x : ℕ) → (deref (set t.heap a.bucket b') x).in_flight ≡ flying x =
      λ x. omega (arith, deref-set_less t.heap a.bucket x b' less, ok.counted x) in
    elim (Bool-cases (b'.in_flight == 0 && length b'.failures == 0)) [
      | inl idle ↦ rw idle (record {
        within = set-AllWithin t.heap a.bucket b' w ok.within;
        addressed =
            AllBelow-remove_item (length (set t.heap a.bucket b')) a.key t.items
              (rw (length-set t.heap a.bucket b') ok.addressed);
        counted = counts;
      })
      | inr kept ↦ rw kept (record {
        within = set-AllWithin t.heap a.bucket b' w ok.within;
        addressed = rw (length-set t.heap a.bucket b') ok.addressed;
        counted = counts;
      })
    ]

pub Ok-cong : (t : LoginAttempts) (f g : ℕ → ℕ) → ((x : ℕ) → f x ≡ g x) → Ok t f → Ok t g
Ok-cong t f g e ok = record {
  within = ok.within;
  addressed = ok.addressed;
  counted = λ x. ok.counted x ∙ e x;
}
