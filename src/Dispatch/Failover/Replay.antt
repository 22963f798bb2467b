-- ===== src/Dispatch/Failover/Replay.antt =====
-- When a request may reach a second channel (service/dispatcher.go, `ExecuteWithPolicy`,
-- `isFailoverEligibleForPolicy`).
use relay_gateway.Common.Base.{
  ℕ, suc, ◌+◌, ◌≤◌, ◌≡◌, refl, ◌∙◌, ap, Bool, true, false, not, ◌&&◌, ◌||◌, ◌==◌, Option, none,
  some, List, [], ◌∷◌, arith,
}
use relay_gateway.Common.Lists.{get_elem?}
use relay_gateway.Common.Text.{Text}
use relay_gateway.Dispatch.Breaker.{Attempt}
use relay_gateway.Dispatch.Channel.{UpstreamChannel}
use relay_gateway.Dispatch.Failover.{
  RetryPolicy, Failure, is_safe_read, is_failover_eligible, World, Called, Breakers, ExecError,
  Executed, Tried, Next, again, return_, target_model, try_candidate, exec_loop,
  execute_with_policy, cons?, after_candidate_with,
}

-- The provider answered, with one of the given statuses.
abbrev pub answered_with : List ℕ → Option ℕ → Bool
answered_with ss none = false
answered_with [] (some s) = false
answered_with (r ∷ ss) (some s) = s == r || answered_with ss (some s)

-- A policy other than the safe read fails over exactly on an unaborted answer with status 401, 403,
-- 404, 405 or 429, and so not on 408 or a status of 500 or more, nor without a status.
pub eligible_rejected :
    (err : Failure) (policy : RetryPolicy)
    → is_safe_read policy ≡ false
    → is_failover_eligible err policy
      ≡ (not err.stream_aborted && answered_with (401 ∷ 403 ∷ 404 ∷ 405 ∷ 429 ∷ []) err.status)
unfolding is_failover_eligible
eligible_rejected err policy p = ground arith

-- The failure of a call that another call may follow.
abbrev pub IsReplayed : RetryPolicy → World → Called → Type 0
IsReplayed policy w c =
    (err : Failure) × (c.failure ≡ some err)
    × (is_failover_eligible err policy ≡ true)
    × (w.ctx_done c.place ≡ false)
    × (w.can_retry c.place ≡ true)

-- The call that a candidate at a place gets.
abbrev pub call_to : World → Text → ℕ → UpstreamChannel → Called
call_to w model_name i ch = record {
  place = i;
  channel_id = ch.id;
  target_model = target_model ch model_name;
  failure = w.call i ch;
}

-- The call went to the candidate at its place, for that channel's name of the model.
abbrev pub Reaches : World → Text → List UpstreamChannel → Called → Type 0
Reaches w model_name chs c =
    (ch : UpstreamChannel) × (get_elem? chs c.place ≡ some ch)
    × (c ≡ call_to w model_name c.place ch)

-- Each call went to the candidate at its place, all calls but the last failed so that another may
-- follow, and the places increase from `i`.
abbrev pub Replays : RetryPolicy → World → Text → List UpstreamChannel → ℕ → List Called → Type 0
Replays policy w model_name chs i [] = Unit {0}
Replays policy w model_name chs i (c ∷ []) = (i ≤ c.place) × Reaches w model_name chs c
Replays policy w model_name chs i (c ∷ d ∷ cs) =
    (i ≤ c.place)
    × Reaches w model_name chs c
    × IsReplayed policy w c
    × Replays policy w model_name chs (c.place + 1) (d ∷ cs)

-- What one candidate leaves for the rest.
abbrev NextOk : RetryPolicy → World → Called → Next → Type 0
NextOk policy w c (again e) = IsReplayed policy w c
NextOk policy w c (return_ e) = Unit

abbrev CalledOk : RetryPolicy → World → Text → ℕ → UpstreamChannel → Next → Option Called → Type 0
CalledOk policy w model_name i ch next none = Unit {0}
CalledOk policy w model_name i ch next (some c) =
    (c ≡ call_to w model_name i ch) × NextOk policy w c next

try_candidate-CalledOk :
    (policy : RetryPolicy) (w : World) (model_name : Text) (i : ℕ) (ch : UpstreamChannel)
    (m : Breakers)
    → let t = try_candidate policy w model_name i ch m in
      CalledOk policy w model_name i ch t.next t.called
unfolding try_candidate
try_candidate-CalledOk policy w model_name i ch m = ground arith

module _ (policy : RetryPolicy) (w : World) (model_name : Text) (chs : List UpstreamChannel) where
  Replays-mono :
      (i : ℕ) (cs : List Called)
      → Replays policy w model_name chs (i + 1) cs
      → Replays policy w model_name chs i cs
  Replays-mono i [] r = tt
  Replays-mono i (c ∷ []) r = (omega (arith, r.0), r.1)
  Replays-mono i (c ∷ d ∷ cs) r = (omega (arith, r.0), r.1, r.2, r.3)

  call_to-Reaches :
      (i : ℕ) (ch : UpstreamChannel) (c : Called)
      → get_elem? chs i ≡ some ch
      → c ≡ call_to w model_name i ch
      → Reaches w model_name chs c
  call_to-Reaches i ch c e q = rw q (ch, e, refl)

  Replays-cons :
      (i : ℕ) (ch : UpstreamChannel) (called : Option Called) (e : ExecError) (cs : List Called)
      → get_elem? chs i ≡ some ch
      → CalledOk policy w model_name i ch (again e) called
      → Replays policy w model_name chs (i + 1) cs
      → Replays policy w model_name chs i (cons? called cs)
  Replays-cons i ch none e cs g ok r = Replays-mono i cs r
  Replays-cons i ch (some c) e [] g ok r =
      let here : c.place ≡ i = ap (λ x. x.place) ok.0 in
      (omega (arith, here), call_to-Reaches i ch c g ok.0)
  Replays-cons i ch (some c) e (d ∷ cs) g ok r =
      let here : c.place ≡ i = ap (λ x. x.place) ok.0 in
      (omega (arith, here), call_to-Reaches i ch c g ok.0, ok.1, rw here r)

  Replays-last :
      (i : ℕ) (ch : UpstreamChannel) (called : Option Called) (next : Next)
      → get_elem? chs i ≡ some ch
      → CalledOk policy w model_name i ch next called
      → Replays policy w model_name chs i (cons? called [])
  Replays-last i ch none next g ok = tt
  Replays-last i ch (some c) next g ok =
      let here : c.place ≡ i = ap (λ x. x.place) ok.0 in
      (omega (arith, here), call_to-Reaches i ch c g ok.0)

  -- What follows a candidate, if the loop over the rest is as it should be.
  after_candidate-Replays :
      (i : ℕ) (ch : UpstreamChannel) (deferred : List Attempt) (t : Tried) (next : Next)
      (loop : ExecError → Executed)
      → get_elem? chs i ≡ some ch
      → CalledOk policy w model_name i ch next t.called
      → ((e : ExecError) → Replays policy w model_name chs (i + 1) (loop e).calls)
      → Replays policy w model_name chs i (after_candidate_with loop w deferred t next).calls
  after_candidate-Replays i ch deferred t (again e) loop g ok later =
      Replays-cons i ch t.called e (loop e).calls g ok (later e)
  after_candidate-Replays i ch deferred t (return_ e) loop g ok later =
      Replays-last i ch t.called (return_ e) g ok

  -- The loop over the candidates from place `i` on.
  exec_loop-Replays :
      (i : ℕ) (last : Option ExecError) (deferred : List Attempt) (rest : List UpstreamChannel)
      (m : Breakers)
      → ((j : ℕ) → get_elem? chs (i + j) ≡ get_elem? rest j)
      → Replays policy w model_name chs i
          (exec_loop policy w model_name i last deferred rest m).calls
  unfolding exec_loop
  exec_loop-Replays i last deferred [] m from = tt
  exec_loop-Replays i last deferred (ch ∷ rest) m from =
      let t = try_candidate policy w model_name i ch m in
      after_candidate-Replays i ch deferred t t.next _
        (ap (λ k. get_elem? chs k) (omega arith) ∙ from 0)
        (try_candidate-CalledOk policy w model_name i ch m)
        (λ e.
          exec_loop-Replays (i + 1) (some e) (cons? t.deferred deferred) rest t.breakers
            (λ j. ap (λ k. get_elem? chs k) (omega arith) ∙ from (suc j)))

-- Whatever the channels answer, each call of a request goes to the candidate at its place in the list
-- that was given, by the name that this channel has for the model, and its failure is what that call
-- answered; the places increase from call to call, so that each candidate is called at most once; and
-- every call but the last failed in a way that is eligible for failover under the request's policy,
-- while its context was live and a retry was possible.
pub execute-Replays :
    (policy : RetryPolicy) (w : World) (model_name : Text) (candidates : List UpstreamChannel)
    (m : Breakers)
    → Replays policy w model_name candidates 0
        (execute_with_policy policy w model_name candidates m).calls
unfolding execute_with_policy
execute-Replays policy w model_name candidates m =
    exec_loop-Replays policy w model_name candidates 0 none [] candidates m
      (λ j. ap (λ k. get_elem? candidates k) (omega arith))
