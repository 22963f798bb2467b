-- ===== src/Dispatch/Pools/Tests.antt =====
-- Indices of two pools of channels at concrete inputs (service/dispatcher.go).
use relay_gateway.Common.Base.{ℕ, ◌+◌, ◌≡◌, refl, none, List, [], ◌∷◌, arith, u64}
use relay_gateway.Common.Int.{pos}
use relay_gateway.Common.Text.{Text, codes, text_eq}
use relay_gateway.Dispatch.Channel.{UpstreamChannel, find_key}
use relay_gateway.Dispatch.Pools.{Pools, next_scheduling_index, pool_key, use_pool}
use relay_gateway.Dispatch.Pools.Turns.{next_scheduling_index-succ}

abbrev channel : Text → UpstreamChannel
channel name = record {
  id = name;
  kind = codes "openai";
  api_key = [];
  api_keys = [];
  priority = pos 1;
  weight = pos 1;
  models = [];
  selected_models = none;
  model_map = [];
}

abbrev pair : List UpstreamChannel
pair = channel (codes "a") ∷ channel (codes "b") ∷ []

abbrev first_id : List (Text × ℕ) → Text
first_id [] = []
first_id ((id, weight) ∷ rest) = id

abbrev used : Pools
used = record {
  pools =
      (codes "z", record { next_index = 4; last_used = 1 })
      ∷ (codes "a", record { next_index = 8; last_used = 2 })
      ∷ [];
  clock = 2;
}

next_scheduling_index-succ_example :
    let (d', i) = next_scheduling_index first_id pair used in
    (next_scheduling_index first_id pair d').1 ≡ u64 (i + 1)
next_scheduling_index-succ_example = next_scheduling_index-succ first_id pair used (omega arith)

-- The index of the pair, and not of the other pool.
own_pool : (next_scheduling_index first_id pair used).1 ≡ 8
unfolding next_scheduling_index pool_key find_key text_eq use_pool
own_pool = refl
