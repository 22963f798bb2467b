-- ===== src/Dispatch/Failover/Tests.antt =====
-- A request that fails over, at concrete inputs (service/dispatcher.go).
use relay_gateway.Common.Base.{
  ℕ, zero, suc, ◌≡◌, refl, true, false, not, ◌&&◌, Option, none, some, List, [], ◌∷◌,
}
use relay_gateway.Common.Int.{pos}
use relay_gateway.Common.Lists.{length}
use relay_gateway.Common.Text.{Text, codes, text_eq}
use relay_gateway.Dispatch.Breaker.{new_breaker, try_acquire, finish}
use relay_gateway.Dispatch.Channel.{UpstreamChannel, find_key}
use relay_gateway.Dispatch.Failover.{
  retry_inference, Failure, is_failover_eligible, World, execute_with_policy, exec_loop,
  try_candidate, get_breaker, put_breaker, finish_in, target_model, legacy_failure_counts,
}
use relay_gateway.Dispatch.Failover.Replay.{
  answered_with, eligible_rejected, Replays, execute-Replays,
}

abbrev answer : ℕ → Failure
answer s = record {
  canceled = false;
  stream_op = none;
  stream_aborted = false;
  unexpected_eof = false;
  status = some s;
  network = false;
}

abbrev channel : Text → UpstreamChannel
channel name = record {
  id = name;
  kind = codes "openai";
  api_key = codes "k";
  api_keys = [];
  priority = pos 0;
  weight = pos 1;
  models = codes "gpt-4" ∷ [];
  selected_models = none;
  model_map = (codes "gpt-4", codes "gpt-4-turbo") ∷ [];
}

abbrev answer_at : ℕ → Option Failure
answer_at zero = some (answer 429)
answer_at (suc zero) = none
answer_at (suc (suc i)) = some (answer 500)

-- The first candidate is rate limited, the second answers.
abbrev world : World
world = record {
  has_adapter = λ k. true;
  call = λ i ch. answer_at i;
  ctx_done = λ i. false;
  can_retry = λ i. true;
  acquired_at = λ i. 1000;
  finished_at = λ i. 2000;
  returned_at = 3000;
}

abbrev candidates : List UpstreamChannel
candidates = channel (codes "a") ∷ channel (codes "b") ∷ channel (codes "c") ∷ []

execute-Replays_example :
    Replays retry_inference world
      (codes "gpt-4")
      candidates
      0
      (execute_with_policy retry_inference world (codes "gpt-4") candidates []).calls
execute-Replays_example = execute-Replays retry_inference world (codes "gpt-4") candidates []

eligible_rejected_example : is_failover_eligible (answer 408) retry_inference ≡ (
    not (answer 408).stream_aborted
    && answered_with (401 ∷ 403 ∷ 404 ∷ 405 ∷ 429 ∷ []) (answer 408).status)
eligible_rejected_example = eligible_rejected (answer 408) retry_inference refl

-- A time-out is not eligible, and a rate limit is.
eligible_runs :
    (is_failover_eligible (answer 408) retry_inference ≡ false)
    × (is_failover_eligible (answer 429) retry_inference ≡ true)
unfolding is_failover_eligible
eligible_runs = (refl, refl)

two_calls :
    length (execute_with_policy retry_inference world (codes "gpt-4") candidates []).calls ≡ 2
unfolding execute_with_policy exec_loop try_candidate try_acquire new_breaker get_breaker
    is_failover_eligible target_model find_key text_eq put_breaker finish_in finish
    legacy_failure_counts
two_calls = refl
