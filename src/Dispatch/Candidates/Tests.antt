-- ===== src/Dispatch/Candidates/Tests.antt =====
-- Resolutions at concrete inputs (service/dispatcher.go).
use relay_gateway.Common.Base.{
  ◌<◌, ◌≡◌, refl, true, false, none, some, List, [], ◌∷◌, if◌then◌else◌,
}
use relay_gateway.Common.Int.{ℤ, pos}
use relay_gateway.Common.Lists.{length}
use relay_gateway.Common.Text.{Text, codes, text_eq, trim_space, to_lower, one_of, equal_fold}
use relay_gateway.Dispatch.Channel.{UpstreamChannel, allows_model, find_key, has_wildcard}
use relay_gateway.Dispatch.Schedule.{schedule_healthy}
use relay_gateway.Dispatch.Candidates.{
  match_pattern, has_prefix, contains, filter, lists_model, any_fold, has_model, matched_pool,
  tiers, order_tiers, ordered, candidate_available, order_candidate_pool, candidates, Situation,
  Registry, serves_protocol, resolve_for_protocol, Binding, bound, unbound, bound_channels,
  any_allows, resolve_profile,
}
use relay_gateway.Dispatch.Candidates.Sound.{All, SortedFrom}
use relay_gateway.Dispatch.Candidates.Resolution.{
  resolve_for_protocol-Serves, resolve_profile-Serves,
}

abbrev channel : Text → ℤ → List Text → UpstreamChannel
channel name priority models = record {
  id = name;
  kind = codes "openai";
  api_key = codes "k";
  api_keys = [];
  priority = priority;
  weight = pos 1;
  models = models;
  selected_models = none;
  model_map = [];
}

-- Two channels have the model, one only as a spare; a third one does not have it.
abbrev spare : UpstreamChannel
spare = channel (codes "s") (pos 2) (codes "gpt-*" ∷ [])

abbrev main_channel : UpstreamChannel
main_channel = channel (codes "m") (pos 0) (codes "GPT-4" ∷ [])

abbrev other : UpstreamChannel
other = channel (codes "o") (pos 1) (codes "flux" ∷ [])

abbrev channels : List UpstreamChannel
channels = spare ∷ other ∷ main_channel ∷ []

abbrev situation : Situation
situation = record {
  path_match = λ p n. false;
  remote_models = [];
  breakers = [];
  now = 1000;
  index = λ chs. 0;
}

abbrev registry : Registry
registry = record { has_adapter = λ kind. true; supports = λ kind. some (λ protocol. true) }

abbrev IsOpenai : UpstreamChannel → Type 0
IsOpenai ch = text_eq ch.kind (codes "openai") ≡ true

in_order :
    resolve_for_protocol registry situation channels (codes " gpt-4") []
    ≡ candidates (main_channel ∷ spare ∷ [])
unfolding resolve_for_protocol serves_protocol order_candidate_pool filter allows_model ordered
    order_tiers candidate_available matched_pool has_model find_key lists_model any_fold
    match_pattern has_prefix contains has_wildcard equal_fold trim_space tiers schedule_healthy
    text_eq to_lower one_of
in_order = refl

resolve_for_protocol-Serves_example :
    All
      (λ ch.
        ((IsOpenai ch × (serves_protocol registry [] ch ≡ true))
          × (allows_model ch (trim_space (codes " gpt-4")) ≡ true))
        × (candidate_available situation.breakers situation.now ch ≡ true))
      (main_channel ∷ spare ∷ [])
    × SortedFrom 0 (main_channel ∷ spare ∷ [])
    × (0 < length (main_channel ∷ spare ∷ []))
unfolding text_eq
resolve_for_protocol-Serves_example =
    resolve_for_protocol-Serves IsOpenai registry situation channels (codes " gpt-4") []
      (main_channel ∷ spare ∷ []) (refl, (refl, (refl, tt))) in_order

abbrev find_binding : Text → Text → Text → Binding
find_binding id operation model_name = if text_eq id (codes "s") then bound else unbound

in_profile :
    resolve_profile find_binding situation false false channels (codes "gpt-4") (codes "video")
    ≡ candidates (spare ∷ [])
unfolding resolve_profile bound_channels any_allows order_candidate_pool filter allows_model ordered
    order_tiers candidate_available matched_pool has_model find_key lists_model any_fold
    match_pattern has_prefix contains has_wildcard equal_fold trim_space tiers schedule_healthy
    text_eq to_lower one_of
in_profile = refl

resolve_profile-Serves_example :
    All
      (λ ch.
        ((IsOpenai ch
            × (find_binding ch.id (trim_space (codes "video")) (trim_space (codes "gpt-4"))
                ≡ bound))
          × (allows_model ch (trim_space (trim_space (codes "gpt-4"))) ≡ true))
        × (candidate_available situation.breakers situation.now ch ≡ true))
      (spare ∷ [])
    × SortedFrom 0 (spare ∷ [])
    × (0 < length (spare ∷ []))
unfolding text_eq
resolve_profile-Serves_example =
    resolve_profile-Serves IsOpenai find_binding situation false false channels (codes "gpt-4")
      (codes "video") (spare ∷ []) (refl, (refl, (refl, tt))) in_profile
