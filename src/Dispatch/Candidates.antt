-- ===== src/Dispatch/Candidates.antt =====
-- The resolution of candidates (service/dispatcher.go: `matchPattern`, `orderCandidatePool`,
-- `ResolveCandidatesForProtocol`, `ResolveProfileCandidatesContext`). The active channels, the registry
-- of adapters, the bindings of the database, `path.Match` and the index of the schedule are parameters.
-- All breakers are read at the time `now`.
pub mod Sound
pub mod Resolution
pub mod Tests
use mathlib.Core.List.{reverse}
use relay_gateway.Common.Base.{
  ℕ, zero, suc, ◌+◌, ◌-◌, Bool, true, false, not, ◌&&◌, ◌||◌, Option, none, some, List, [], ◌∷◌,
  ◌++◌, map, ltb, leb, ◌==◌, if◌then◌else◌,
}
use relay_gateway.Common.Int.{ℤ, pos, pos_part}
use relay_gateway.Common.Lists.{length}
use relay_gateway.Common.Text.{
  Text, codes, text_eq, is_empty, trim_space, to_lower, equal_fold, one_of,
}
use relay_gateway.Dispatch.Breaker.{Breaker, available}
use relay_gateway.Dispatch.Channel.{UpstreamChannel, find_key, has_wildcard, allows_model}
use relay_gateway.Dispatch.Failover.{Breakers}
use relay_gateway.Dispatch.Schedule.{schedule_healthy}

unfoldable pub has_prefix : Text → Text → Bool
has_prefix s [] = true
has_prefix [] (b ∷ p) = false
has_prefix (a ∷ s) (b ∷ p) = a == b && has_prefix s p

abbrev pub has_suffix : Text → Text → Bool
has_suffix s p = has_prefix (reverse s) (reverse p)

-- `strings.Contains(s, p)`.
unfoldable pub contains : Text → Text → Bool
contains [] p = is_empty p
contains (a ∷ s) p = has_prefix (a ∷ s) p || contains s p

abbrev pub tail : Text → Text
tail [] = []
tail (a ∷ s) = s

-- All but the last byte.
abbrev pub front : Text → Text
front s = reverse (tail (reverse s))

abbrev pub star : Text
star = codes "*"

-- `strings.ReplaceAll(s, "/", "_")`.
abbrev pub replace_slashes : Text → Text
replace_slashes s = map (λ c. if c == b'/' then b'_' else c) s

unfoldable pub match_pattern : (Text → Text → Bool) → Text → Text → Bool
match_pattern path_match pattern name =
    let p = to_lower (trim_space pattern) in
    let n = to_lower (trim_space name) in
    if text_eq p star || text_eq p n
    then true
    else if has_prefix p star && (has_suffix p star && ltb 2 (length p))
    then contains n (front (tail p))
    else if has_prefix p star && not (contains (tail p) star)
    then has_suffix n (tail p)
    else if has_suffix p star && not (contains (front p) star)
    then has_prefix n (front p)
    else path_match (replace_slashes p) (replace_slashes n)

-- The remote models that discovery stored, by channel.
abbrev pub RemoteModels : Type 0
RemoteModels = List (Text × List Text)

unfoldable pub any_fold : Text → List Text → Bool
any_fold name [] = false
any_fold name (m ∷ ms) = equal_fold m name || any_fold name ms

-- The scan of `ch.Models`.
unfoldable pub lists_model : (Text → Text → Bool) → Text → List Text → Bool
lists_model path_match name [] = false
lists_model path_match name (m ∷ ms) =
    (not (text_eq m star)
      && (equal_fold m name || (has_wildcard m && match_pattern path_match m name)))
    || lists_model path_match name ms

abbrev pub is_some {ℓ} : {A : Type ℓ} → Option A → Bool
is_some none = false
is_some (some a) = true

unfoldable pub has_model : (Text → Text → Bool) → RemoteModels → Text → UpstreamChannel → Bool
has_model path_match remote name ch =
    is_some ch.selected_models
    || (elim (find_key ch.id remote) [ none ↦ false | some models ↦ any_fold name models ]
        || (lists_model path_match name ch.models || is_some (find_key name ch.model_map)))

-- The loops that append what passes a test.
unfoldable pub filter {ℓ} : {A : Type ℓ} → (A → Bool) → List A → List A
filter keep [] = []
filter keep (x ∷ xs) = let rest = filter keep xs in if keep x then x ∷ rest else rest

abbrev pub or_else {ℓ} : {A : Type ℓ} → List A → List A → List A
or_else [] ys = ys
or_else (x ∷ xs) ys = x ∷ xs

-- The channels that have the model, else those with "*", else all.
unfoldable pub matched_pool :
    (Text → Text → Bool) → RemoteModels → Text → List UpstreamChannel → List UpstreamChannel
matched_pool path_match remote name eligible =
    or_else (filter (has_model path_match remote name) eligible)
      (or_else (filter (λ ch. one_of star ch.models) eligible) eligible)

abbrev pub tier : UpstreamChannel → ℕ
tier ch = if pos_part ch.priority == 0 then 1 else pos_part ch.priority

-- The keys of `priorityGroups`, sorted: each tier once, inserted in its place.
unfoldable pub insert_tier : ℕ → List ℕ → List ℕ
insert_tier p [] = p ∷ []
insert_tier p (q ∷ qs) =
    let rest = insert_tier p qs in
    if ltb p q then p ∷ q ∷ qs else if p == q then q ∷ qs else q ∷ rest

unfoldable pub tiers : List UpstreamChannel → List ℕ
unfolding insert_tier
tiers [] = []
tiers (ch ∷ chs) = insert_tier (tier ch) (tiers chs)

-- `candidateAvailable`: a channel without a breaker is available.
unfoldable pub candidate_available : Breakers → ℕ → UpstreamChannel → Bool
candidate_available breakers now ch = elim (find_key ch.id breakers) [
  | none ↦ true
  | some st ↦ available now st
]

abbrev pub in_tier : ℕ → UpstreamChannel → Bool
in_tier p ch = tier ch == p

-- The loop over the sorted tiers; `index` stands for `nextSchedulingIndex`.
unfoldable pub order_tiers :
    (List UpstreamChannel → ℕ) → Breakers → ℕ → List UpstreamChannel → List ℕ → List UpstreamChannel
order_tiers index breakers now pool [] = []
order_tiers index breakers now pool (p ∷ ps) =
    let healthy = filter (candidate_available breakers now) (filter (in_tier p) pool) in
    schedule_healthy healthy (index healthy) ++ order_tiers index breakers now pool ps

pub data ResolveError : Type 0 where
  context_done no_active_channels operation_required : ResolveError
  model_not_selected no_profile_binding no_protocol_support no_healthy_channel : ResolveError
  binding_failed : Text → ResolveError

pub data Resolved : Type 0 where
  candidates : List UpstreamChannel → Resolved
  unresolved : ResolveError → Resolved

-- What the dispatcher reads while it orders the candidates.
pub record Situation : Type 0 where
  pub path_match : Text → Text → Bool
  pub remote_models : RemoteModels
  pub breakers : Breakers
  pub now : ℕ
  pub index : List UpstreamChannel → ℕ

abbrev pub resolve_or : ResolveError → List UpstreamChannel → Resolved
resolve_or e [] = unresolved e
resolve_or e (ch ∷ chs) = candidates (ch ∷ chs)

unfoldable pub ordered : Situation → List UpstreamChannel → List UpstreamChannel
ordered s pool = order_tiers s.index s.breakers s.now pool (tiers pool)

unfoldable pub order_candidate_pool : Situation → List UpstreamChannel → Text → Resolved
order_candidate_pool s eligible model_name =
    let trimmed = trim_space model_name in
    let allowed = filter (λ ch. allows_model ch trimmed) eligible in
    if length allowed == 0
    then unresolved model_not_selected
    else resolve_or no_healthy_channel
        (ordered s (matched_pool s.path_match s.remote_models trimmed allowed))

-- The registry of adapters: whether an adapter and its metadata exist, and what it supports.
pub record Registry : Type 0 where
  pub has_adapter : Text → Bool
  pub supports : Text → Option (Text → Bool)

unfoldable pub serves_protocol : Registry → Text → UpstreamChannel → Bool
serves_protocol reg protocol ch = elim (reg.supports ch.kind) [
  | none ↦ false
  | some supports ↦
      reg.has_adapter ch.kind
      && (if text_eq protocol (codes "anthropic_messages")
          then text_eq ch.kind (codes "anthropic")
          else is_empty protocol || supports protocol)
]

unfoldable pub resolve_for_protocol :
    Registry → Situation → List UpstreamChannel → Text → Text → Resolved
resolve_for_protocol reg s channels model_name protocol =
    let eligible = filter (serves_protocol reg protocol) channels in
    if length channels == 0
    then unresolved no_active_channels
    else if length eligible == 0
    then unresolved no_protocol_support
    else order_candidate_pool s eligible model_name

-- `db.FindChannelProtocolBindingContext`: a binding, `gorm.ErrRecordNotFound` or another error.
pub data Binding : Type 0 where
  bound unbound failing : Binding

-- What one lookup adds to the eligible channels of the rest; an error ends the loop.
abbrev pub found_binding :
    UpstreamChannel
    → Binding
    → List UpstreamChannel × Option Text
    → List UpstreamChannel × Option Text
found_binding ch bound rest = (ch ∷ rest.0, rest.1)
found_binding ch unbound rest = rest
found_binding ch failing rest = ([], some ch.id)

-- The loop over the channels: the eligible ones, or the channel whose lookup failed.
unfoldable pub bound_channels :
    (Text → Binding) → Text → List UpstreamChannel → List UpstreamChannel × Option Text
bound_channels binding name [] = ([], none)
bound_channels binding name (ch ∷ chs) =
    let rest = bound_channels binding name chs in
    if not (allows_model ch name) then rest else found_binding ch (binding ch.id) rest

unfoldable pub any_allows : Text → List UpstreamChannel → Bool
any_allows name [] = false
any_allows name (ch ∷ chs) = allows_model ch name || any_allows name chs

-- What follows the loop; `after` is `ctx.Err() != nil` there.
abbrev pub after_lookup :
    Situation → Bool → Bool → List UpstreamChannel → Text → Option Text → Resolved
after_lookup s after allows eligible name (some id) = unresolved (binding_failed id)
after_lookup s after allows eligible name none =
    if after
    then unresolved context_done
    else if not allows
    then unresolved model_not_selected
    else if length eligible == 0
    then unresolved no_profile_binding
    else order_candidate_pool s eligible name

-- `before` is `ctx.Err() != nil` at the start. A binding is looked up by channel, operation and model.
unfoldable pub resolve_profile :
    (Text → Text → Text → Binding)
    → Situation
    → Bool
    → Bool
    → List UpstreamChannel
    → Text
    → Text
    → Resolved
resolve_profile find_binding s before after channels model_name operation =
    let op = trim_space operation in
    let name = trim_space model_name in
    let (eligible, e) = bound_channels (λ id. find_binding id op name) name channels in
    if before
    then unresolved context_done
    else if length channels == 0
    then unresolved no_active_channels
    else if is_empty op
    then unresolved operation_required
    else after_lookup s after (any_allows name channels) eligible name e
