-- ===== src/Dispatch/Schedule/Tests.antt =====
-- Runs of the schedule, and the theorems about it at concrete inputs.
use mathlib.Core.List.{Perm}
use relay_gateway.Common.Base.{ℕ, ◌≡◌, refl, none, List, [], ◌∷◌, map}
use relay_gateway.Common.Lists.{get_elem?}
use relay_gateway.Common.Int.{pos, ◌+ℤ◌, ◌-ℤ◌}
use relay_gateway.Common.Text.{Text, codes}
use relay_gateway.Dispatch.Channel.{UpstreamChannel}
use relay_gateway.Dispatch.Schedule.{schedule_healthy, schedule_table, start_index, sum, weights}
use relay_gateway.Dispatch.Schedule.Rotation.{schedule_healthy-perm}
use relay_gateway.Dispatch.Schedule.Fairness.{count}
use relay_gateway.Dispatch.Schedule.Values.{values}
use relay_gateway.Dispatch.Schedule.Cycle.{schedule_fair}

abbrev weighted : Text → ℕ → UpstreamChannel
weighted name w = record {
  id = name;
  kind = codes "openai";
  api_key = [];
  api_keys = [];
  priority = pos 1;
  weight = pos w;
  models = [];
  selected_models = none;
  model_map = [];
}

abbrev pool : List UpstreamChannel
pool = weighted (codes "a") 5 ∷ weighted (codes "b") 1 ∷ weighted (codes "c") 1 ∷ []

-- The order of smooth weighted round robin for 5, 1, 1.
smooth_table : schedule_table (weights pool) ≡ 0 ∷ 0 ∷ 1 ∷ 0 ∷ 2 ∷ 0 ∷ 0 ∷ []
unfolding schedule_table weights ◌+ℤ◌ ◌-ℤ◌
smooth_table = refl

third_order : map (λ ch. ch.id) (schedule_healthy pool 9) ≡ codes "b" ∷ codes "c" ∷ codes "a" ∷ []
unfolding schedule_healthy ◌+ℤ◌ ◌-ℤ◌
third_order = refl

schedule_healthy-perm_example : Perm (schedule_healthy pool 9) pool
schedule_healthy-perm_example = schedule_healthy-perm pool 9

schedule_fair_example :
    (get_elem? (schedule_healthy pool 9) 0 ≡ get_elem? pool (start_index pool 9))
    × (count 0 (values (start_index pool) 3 7) ≡ 5)
unfolding weights sum
schedule_fair_example = schedule_fair pool 9 3 0

-- The first places at the counters 3 to 9.
first_places : values (start_index pool) 3 7 ≡ 0 ∷ 2 ∷ 0 ∷ 0 ∷ 0 ∷ 0 ∷ 1 ∷ []
unfolding start_index schedule_table weights ◌+ℤ◌ ◌-ℤ◌
first_places = refl
