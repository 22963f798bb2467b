-- ===== src/Dispatch/Failover.antt =====
-- The failover loop (service/dispatcher.go, `ExecuteWithPolicy`), over the candidates that were
-- resolved. An error is what `errors.Is` and `errors.As` find in its chain. The callback, the context
-- and `canRetry` answer by the place of the candidate in the list; logging and auditing are left out.
pub mod Replay
pub mod Tests
use relay_gateway.Common.Base.{
  ℕ, zero, suc, ◌+◌, Bool, true, false, not, ◌&&◌, ◌||◌, Option, none, some, List, [], ◌∷◌, ltb,
  leb, ◌==◌, if◌then◌else◌,
}
use relay_gateway.Common.Text.{Text, codes, text_eq, is_empty}
use relay_gateway.Dispatch.Breaker.{
  Breaker, Outcome, ignored, succeeded, failed, Attempt, new_breaker, finish, try_acquire,
}
use relay_gateway.Dispatch.Channel.{UpstreamChannel, find_key, text_or_empty}

pub data RetryPolicy : Type 0 where
  retry_safe_read retry_inference retry_create_task : RetryPolicy

pub record Failure : Type 0 where
  pub canceled : Bool  -- context.Canceled
  pub stream_op : Option Text  -- httpforward.StreamError
  pub stream_aborted : Bool  -- adapter.ErrStreamAborted
  pub unexpected_eof : Bool  -- io.ErrUnexpectedEOF
  pub status : Option ℕ  -- adapter.UpstreamHTTPError
  pub network : Bool  -- net.Error

abbrev pub is_safe_read : RetryPolicy → Bool
is_safe_read retry_safe_read = true
is_safe_read retry_inference = false
is_safe_read retry_create_task = false

abbrev pub is_rejection : ℕ → Bool
is_rejection status =
    status == 401 || (status == 403 || (status == 404 || (status == 405 || status == 429)))

unfoldable pub legacy_failure_counts : Failure → RetryPolicy → Bool
legacy_failure_counts err policy = if err.canceled then false else elim err.stream_op [
  | some op ↦ text_eq op (codes "read")
  | none ↦ if err.stream_aborted then err.unexpected_eof else elim err.status [
    | some status ↦
        status == 408
        || (status == 429
            || (leb 500 status
                || (status == 401 || (status == 403 || (status == 404 || status == 405)))))
    | none ↦ if err.network then true else is_safe_read policy
  ]
]

unfoldable pub is_failover_eligible : Failure → RetryPolicy → Bool
is_failover_eligible err policy = if err.stream_aborted then false else elim err.status [
  | none ↦ is_safe_read policy
  | some status ↦
      if status == 400 || status == 422
      then false
      else if leb 400 status && ltb status 500
      then is_rejection status
      else is_safe_read policy
]

-- `d.breakers`, by channel.
abbrev pub Breakers : Type 0
Breakers = List (Text × Breaker)

unfoldable pub get_breaker : Text → Breakers → Breaker
get_breaker k [] = new_breaker
get_breaker k ((j, st) ∷ m) = if text_eq j k then st else get_breaker k m

-- Storing through the pointer that `GetBreaker` returned, which is in the map from then on.
unfoldable pub put_breaker : Text → Breaker → Breakers → Breakers
put_breaker k st [] = (k, st) ∷ []
put_breaker k st ((j, old) ∷ m) = if text_eq j k then (k, st) ∷ m else (j, old) ∷ put_breaker k st m

unfoldable pub finish_in : Attempt → Outcome → ℕ → Breakers → Breakers
finish_in a o now m = put_breaker a.channel_id (finish a o now (get_breaker a.channel_id m)).1 m

pub data ExecError : Type 0 where
  cooling adapter_missing : Text → ExecError
  upstream : Failure → ExecError

-- What the request meets at the candidate with a given place.
pub record World : Type 0 where
  pub has_adapter : Text → Bool
  pub call : ℕ → UpstreamChannel → Option Failure
  pub ctx_done : ℕ → Bool
  pub can_retry : ℕ → Bool
  pub acquired_at : ℕ → ℕ
  pub finished_at : ℕ → ℕ
  pub returned_at : ℕ

-- One call of `fn`: the place of the channel, the model it was asked for, and how it failed.
pub record Called : Type 0 where
  pub place : ℕ
  pub channel_id : Text
  pub target_model : Text
  pub failure : Option Failure

pub record Executed : Type 0 where
  pub error : Option ExecError
  pub calls : List Called
  pub breakers : Breakers

unfoldable pub target_model : UpstreamChannel → Text → Text
target_model ch model_name =
    let mapped = text_or_empty (find_key model_name ch.model_map) in
    if is_empty mapped then model_name else mapped

-- What follows one candidate: the loop goes on with the last error, or returns.
pub data Next : Type 0 where
  again : ExecError → Next
  return_ : Option ExecError → Next

pub record Tried : Type 0 where
  pub next : Next
  pub called : Option Called
  pub breakers : Breakers
  pub deferred : Option Attempt  -- a lease that only the deferred `finish` ends

after_failure : RetryPolicy → World → ℕ → Failure → Next
after_failure policy w i err =
    if w.ctx_done i
    then return_ (some (upstream err))
    else if not (is_failover_eligible err policy)
    then return_ (some (upstream err))
    else if not (w.can_retry i)
    then return_ (some (upstream err))
    else again (upstream err)

feedback : RetryPolicy → World → ℕ → Failure → Outcome
feedback policy w i err =
    if w.ctx_done i then ignored else if legacy_failure_counts err policy then failed else ignored

unfoldable pub try_candidate : RetryPolicy → World → Text → ℕ → UpstreamChannel → Breakers → Tried
unfolding after_failure feedback
try_candidate policy w model_name i ch m =
    let (lease, st) = try_acquire ch.id (w.acquired_at i) (get_breaker ch.id m) in
    let m' = put_breaker ch.id st m in
    let target = target_model ch model_name in
    elim lease [
      | none ↦ record {
        next = again (cooling ch.id);
        called = none;
        breakers = m';
        deferred = none;
      }
      | some a ↦
          if not (w.has_adapter ch.kind)
          then record {
            next = again (adapter_missing ch.id);
            called = none;
            breakers = m';
            deferred = some a;
          }
          else elim (w.call i ch) [
            | none ↦ record {
              next = return_ none;
              called =
                  some (record {
                    place = i;
                    channel_id = ch.id;
                    target_model = target;
                    failure = none;
                  });
              breakers = finish_in a succeeded (w.finished_at i) m';
              deferred = none;
            }
            | some err ↦ record {
              next = after_failure policy w i err;
              called = some (record {
                place = i;
                channel_id = ch.id;
                target_model = target;
                failure = some err;
              });
              breakers = finish_in a (feedback policy w i err) (w.finished_at i) m';
              deferred = none;
            }
          ]
    ]

abbrev pub cons? {ℓ} : {A : Type ℓ} → Option A → List A → List A
cons? none xs = xs
cons? (some x) xs = x ∷ xs

-- The deferred calls, in the order in which they run.
unfoldable pub run_deferred : ℕ → List Attempt → Breakers → Breakers
run_deferred now [] m = m
run_deferred now (a ∷ rest) m = run_deferred now rest (finish_in a ignored now m)

-- What follows a candidate, with the loop over the rest.
abbrev pub after_candidate_with :
    (ExecError → Executed) → World → List Attempt → Tried → Next → Executed
after_candidate_with loop w deferred t (return_ error) = record {
  error = error;
  calls = cons? t.called [];
  breakers = run_deferred w.returned_at (cons? t.deferred deferred) t.breakers;
}
after_candidate_with loop w deferred t (again err) =
    let r = loop err in
    record { error = r.error; calls = cons? t.called r.calls; breakers = r.breakers }

unfoldable pub exec_loop :
    RetryPolicy
    → World
    → Text
    → ℕ
    → Option ExecError
    → List Attempt
    → List UpstreamChannel
    → Breakers
    → Executed
exec_loop policy w model_name i last deferred [] m = record {
  error = last;
  calls = [];
  breakers = run_deferred w.returned_at deferred m;
}
exec_loop policy w model_name i last deferred (ch ∷ rest) m =
    let t = try_candidate policy w model_name i ch m in
    after_candidate_with
      (λ err.
        exec_loop policy w model_name (i + 1) (some err) (cons? t.deferred deferred) rest
          t.breakers)
      w deferred t t.next

unfoldable pub execute_with_policy :
    RetryPolicy → World → Text → List UpstreamChannel → Breakers → Executed
unfolding exec_loop
execute_with_policy policy w model_name candidates m =
    exec_loop policy w model_name 0 none [] candidates m
