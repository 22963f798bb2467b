-- ===== src/Dispatch/Candidates/Resolution.antt =====
-- What a resolution promises to its caller (service/dispatcher.go).
use relay_gateway.Common.Base.{
  ◌<◌, ◌≡◌, refl, inl, inr, Bool, true, false, not, Option, none, some, List, [], ◌∷◌, arith, ◌==◌,
  if◌then◌else◌, Bool-cases,
}
use relay_gateway.Common.Lists.{length}
use relay_gateway.Common.Text.{Text, trim_space, is_empty}
use relay_gateway.Dispatch.Channel.{UpstreamChannel, allows_model}
use relay_gateway.Dispatch.Candidates.{
  filter, matched_pool, candidate_available, ordered, ResolveError, Resolved, candidates,
  unresolved, Situation, resolve_or, order_candidate_pool, Registry, serves_protocol,
  resolve_for_protocol, Binding, bound, unbound, failing, bound_channels, found_binding,
  after_lookup, resolve_profile, any_allows, no_active_channels, no_protocol_support, context_done,
  model_not_selected, no_profile_binding, operation_required,
}
use relay_gateway.Dispatch.Candidates.Sound.{
  All, All-imp, filter-All, or_else-All, order_tiers-All, SortedFrom, order_tiers-SortedFrom,
  tiers-IncreasingFrom,
}

-- Candidates are some, stand in the order of their tiers, allow the model, are available, and have
-- whatever `P` says.
record Serves (P : UpstreamChannel → Type 0) (s : Situation) (name : Text)
    (cs : List UpstreamChannel) : Type 0 where
  chosen :
      All
        (λ ch.
          (P ch × (allows_model ch name ≡ true)) × (candidate_available s.breakers s.now ch ≡ true))
        cs
  sorted : SortedFrom 0 cs
  found : 0 < length cs

-- A resolution that fails promises nothing.
unfoldable Good : (UpstreamChannel → Type 0) → Situation → Text → Resolved → Type 0
Good P s name (candidates cs) = Serves P s name cs
Good P s name (unresolved e) = Unit

matched_pool-All :
    (P : UpstreamChannel → Type 0) (s : Situation) (name : Text) (chs : List UpstreamChannel)
    → All P chs
    → All P (matched_pool s.path_match s.remote_models name chs)
unfolding matched_pool
matched_pool-All P s name chs a =
    or_else-All P _ _ (All-imp _ P _ (λ ch h. h.0) (filter-All P _ chs a))
      (or_else-All P _ _ (All-imp _ P _ (λ ch h. h.0) (filter-All P _ chs a)) a)

resolve_or-Good :
    (P : UpstreamChannel → Type 0) (s : Situation) (name : Text) (e : ResolveError)
    (cs : List UpstreamChannel)
    → All
        (λ ch.
          (P ch × (allows_model ch name ≡ true)) × (candidate_available s.breakers s.now ch ≡ true))
        cs
    → SortedFrom 0 cs
    → Good P s name (resolve_or e cs)
unfolding Good
resolve_or-Good P s name e [] a o = tt
resolve_or-Good P s name e (ch ∷ cs) a o = record { chosen = a; sorted = o; found = omega arith }

guarded-Good :
    (P : UpstreamChannel → Type 0) (s : Situation) (name : Text) (c : Bool) (e : ResolveError)
    (r : Resolved)
    → Good P s name r
    → Good P s name (if c then unresolved e else r)
unfolding Good
guarded-Good P s name true e r g = tt
guarded-Good P s name false e r g = g

order_candidate_pool-Good :
    (P : UpstreamChannel → Type 0) (s : Situation) (chs : List UpstreamChannel) (model_name : Text)
    → All P chs
    → Good P s (trim_space model_name) (order_candidate_pool s chs model_name)
unfolding order_candidate_pool ordered
order_candidate_pool-Good P s chs model_name a =
    let name = trim_space model_name in
    let allowed = filter-All P (λ ch. allows_model ch name) chs a in
    guarded-Good P s name _ _ _ (
      resolve_or-Good P s name _ _
        (order_tiers-All _ s.index s.breakers s.now _ _ (matched_pool-All _ s name _ allowed))
        (order_tiers-SortedFrom s.index s.breakers s.now _ 0 _ (tiers-IncreasingFrom _)))

resolve_for_protocol-Good :
    (P : UpstreamChannel → Type 0) (reg : Registry) (s : Situation) (chs : List UpstreamChannel)
    (model_name protocol : Text)
    → All P chs
    → Good
        (λ ch. P ch × (serves_protocol reg protocol ch ≡ true))
        s
        (trim_space model_name)
        (resolve_for_protocol reg s chs model_name protocol)
unfolding resolve_for_protocol
resolve_for_protocol-Good P reg s chs model_name protocol a =
    let Q : UpstreamChannel → Type 0 = λ ch. P ch × (serves_protocol reg protocol ch ≡ true) in
    let name = trim_space model_name in
    guarded-Good Q s name (length chs == 0) no_active_channels _ (
      guarded-Good Q s name (length (filter (serves_protocol reg protocol) chs) == 0)
        no_protocol_support _
        (order_candidate_pool-Good Q s _ model_name
          (filter-All P (serves_protocol reg protocol) chs a)))

-- Whatever holds of all active channels, and in particular that they are active, holds of the candidates
-- for a protocol; each of them has an adapter that serves the protocol, allows the model and is available
-- to its breaker. There is at least one, and they stand in the order of their priorities.
pub resolve_for_protocol-Serves :
    (P : UpstreamChannel → Type 0) (reg : Registry) (s : Situation)
    (channels : List UpstreamChannel) (model_name protocol : Text) (cs : List UpstreamChannel)
    → All P channels
    → resolve_for_protocol reg s channels model_name protocol ≡ candidates cs
    → All
        (λ ch.
          ((P ch × (serves_protocol reg protocol ch ≡ true))
            × (allows_model ch (trim_space model_name) ≡ true))
          × (candidate_available s.breakers s.now ch ≡ true))
        cs
      × SortedFrom 0 cs
      × (0 < length cs)
unfolding Good
resolve_for_protocol-Serves P reg s channels model_name protocol cs a e =
    let g : Good (λ ch. P ch × (serves_protocol reg protocol ch ≡ true)) s (trim_space model_name)
        (candidates cs) =
      rw e at (resolve_for_protocol-Good P reg s channels model_name protocol a) in
    (g.chosen, g.sorted, g.found)

bound_channels-All :
    (P : UpstreamChannel → Type 0) (binding : Text → Binding) (name : Text)
    (chs : List UpstreamChannel)
    → All P chs
    → All (λ ch. P ch × (binding ch.id ≡ bound)) (bound_channels binding name chs).0
unfolding bound_channels
bound_channels-All P binding name [] a = tt
bound_channels-All P binding name (ch ∷ chs) a =
    let rest = bound_channels-All P binding name chs a.1 in
    elim (Bool-cases (allows_model ch name)) [
      | inr e ↦ rw e rest
      | inl e ↦ rw e (kept (binding ch.id) refl rest)
    ]
  where
    kept :
        (b : Binding)
        → binding ch.id ≡ b
        → All (λ x. P x × (binding x.id ≡ bound)) (bound_channels binding name chs).0
        → All
            (λ x. P x × (binding x.id ≡ bound))
            (found_binding ch b (bound_channels binding name chs)).0
    kept bound q rest = ((a.0, q), rest)
    kept unbound q rest = rest
    kept failing q rest = tt

after_lookup-Good :
    (Q : UpstreamChannel → Type 0) (s : Situation) (after allows : Bool)
    (eligible : List UpstreamChannel) (e : Option Text) (name : Text)
    → Good Q s (trim_space name) (order_candidate_pool s eligible name)
    → Good Q s (trim_space name) (after_lookup s after allows eligible name e)
after_lookup-Good Q s after allows eligible (some id) name g = unfold Good in tt
after_lookup-Good Q s after allows eligible none name g = guarded-Good Q s _ after context_done _ (
    guarded-Good Q s _ (not allows) model_not_selected _
      (guarded-Good Q s _ (length eligible == 0) no_profile_binding _ g))

resolve_profile-Good :
    (P : UpstreamChannel → Type 0) (find : Text → Text → Text → Binding) (s : Situation)
    (before after : Bool) (chs : List UpstreamChannel) (model_name operation : Text)
    → All P chs
    → Good
        (λ ch. P ch × (find ch.id (trim_space operation) (trim_space model_name) ≡ bound))
        s
        (trim_space (trim_space model_name))
        (resolve_profile find s before after chs model_name operation)
unfolding resolve_profile
resolve_profile-Good P find s before after chs model_name operation a =
    let Q : UpstreamChannel → Type 0 =
      λ ch. P ch × (find ch.id (trim_space operation) (trim_space model_name) ≡ bound) in
    let name = trim_space model_name in
    let n = trim_space name in
    let b =
      bound_channels (λ id. find id (trim_space operation) (trim_space model_name)) name chs in
    let bounds =
      bound_channels-All P (λ id. find id (trim_space operation) (trim_space model_name)) name chs
        a in
    guarded-Good Q s n before context_done _ (
      guarded-Good Q s n (length chs == 0) no_active_channels _ (
        guarded-Good Q s n (is_empty (trim_space operation)) operation_required _ (
          after_lookup-Good Q s after (any_allows name chs) b.0 b.1 name
            (order_candidate_pool-Good Q s b.0 name bounds))))

-- Whatever holds of all active channels holds of the candidates for a profile operation; for each of them
-- the lookup found a binding of the operation and the model, and it allows the model and is available to its breaker.
-- There is at least one, and they stand in the order of their priorities.
pub resolve_profile-Serves :
    (P : UpstreamChannel → Type 0) (find : Text → Text → Text → Binding) (s : Situation)
    (before after : Bool) (channels : List UpstreamChannel) (model_name operation : Text)
    (cs : List UpstreamChannel)
    → All P channels
    → resolve_profile find s before after channels model_name operation ≡ candidates cs
    → All
        (λ ch.
          ((P ch × (find ch.id (trim_space operation) (trim_space model_name) ≡ bound))
            × (allows_model ch (trim_space (trim_space model_name)) ≡ true))
          × (candidate_available s.breakers s.now ch ≡ true))
        cs
      × SortedFrom 0 cs
      × (0 < length cs)
unfolding Good
resolve_profile-Serves P find s before after channels model_name operation cs a e =
    let g : Good (λ ch. P ch × (find ch.id (trim_space operation) (trim_space model_name) ≡ bound))
        s (trim_space (trim_space model_name)) (candidates cs) =
      rw e at (resolve_profile-Good P find s before after channels model_name operation a) in
    (g.chosen, g.sorted, g.found)
