-- ===== src/Metrics/Collector/Tests.antt =====
-- The window of latencies at concrete inputs (metrics/collector.go).
use relay_gateway.Common.Base.{◌≤◌, ◌≡◌, refl, Bool, true, false, List, [], ◌∷◌}
use relay_gateway.Common.Int.{ℤ, pos, negsuc}
use relay_gateway.Common.Lists.{length}
use relay_gateway.Metrics.Collector.{
  new_collector, observe_all, observe_request, observe_status, keep_latency,
}
use relay_gateway.Metrics.Collector.Window.{in_order, last, durations, window-last}

abbrev requests : List (ℤ × Bool)
requests = (pos 5, true) ∷ (pos 7, false) ∷ (negsuc 0, true) ∷ (pos 9, true) ∷ []

window-last_example :
    let c = observe_all requests (new_collector 3) in
    (in_order c ≡ last c.max_latencies (durations requests))
    × (length c.latencies ≤ c.max_latencies)
window-last_example = window-last 3 requests

-- The oldest latency was overwritten.
overwritten : (observe_all requests (new_collector 3)).latencies ≡ 9 ∷ 7 ∷ 0 ∷ []
unfolding observe_all observe_request keep_latency new_collector
overwritten = refl

-- A redirection counts as a success.
redirected : (observe_status 302 (pos 4) (new_collector 3)).successes ≡ 1
unfolding observe_status observe_request keep_latency new_collector
redirected = refl
