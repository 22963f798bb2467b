-- ===== src/Dispatch/Channel.antt =====
-- An upstream channel (config/config.go): the fields that routing reads, with `AllowsModel` and
-- `GetEffectiveKeys`. A map from strings is an association list, and a nil slice is `none`.
use relay_gateway.Common.Base.{
  Bool, true, false, not, ◌&&◌, ◌||◌, Option, none, some, List, [], ◌∷◌, ◌==◌, if◌then◌else◌,
}
use relay_gateway.Common.Int.{ℤ}
use relay_gateway.Common.Text.{Text, text_eq, is_empty, trim_space, equal_fold}

pub record UpstreamChannel : Type 0 where
  pub id : Text
  pub kind : Text  -- the field `Type`
  pub api_key : Text
  pub api_keys : List Text
  pub priority : ℤ
  pub weight : ℤ
  pub models : List Text
  pub selected_models : Option (List Text)
  pub model_map : List (Text × Text)

-- A key that is missing reads as "" in Go; `find_key` keeps the two apart.
unfoldable pub find_key {ℓ} : {V : Type ℓ} → Text → List (Text × V) → Option V
find_key k [] = none
find_key k ((j, v) ∷ m) = if text_eq k j then some v else find_key k m

abbrev pub text_or_empty : Option Text → Text
text_or_empty none = []
text_or_empty (some s) = s

-- `strings.ContainsAny(s, "*?")`.
unfoldable pub has_wildcard : Text → Bool
has_wildcard [] = false
has_wildcard (c ∷ s) = (c == b'*' || c == b'?') || has_wildcard s

selects : Text → List Text → Bool
unfolding has_wildcard
selects target [] = false
selects target (s ∷ ss) =
    let selected = trim_space s in
    (not (is_empty selected) && (not (has_wildcard selected) && equal_fold selected target))
    || selects target ss

-- The model that `AllowsModel` checks: the mapped name, unless it is blank.
unfoldable pub upstream_name : List (Text × Text) → Text → Text
upstream_name model_map model_name =
    let target = trim_space model_name in
    let mapped = trim_space (text_or_empty (find_key target model_map)) in
    if not (is_empty mapped) then mapped else target

unfoldable pub allows_model : UpstreamChannel → Text → Bool
unfolding upstream_name selects
allows_model c model_name = elim c.selected_models [
  | none ↦ true
  | some selection ↦
      let target = upstream_name c.model_map model_name in
      if is_empty target then false else selects target selection
]

trimmed_keys : List Text → List Text
trimmed_keys [] = []
trimmed_keys (k ∷ ks) =
    let rest = trimmed_keys ks in
    if not (is_empty (trim_space k)) then trim_space k ∷ rest else rest

unfoldable pub get_effective_keys : UpstreamChannel → List Text
unfolding trimmed_keys
get_effective_keys c = elim (trimmed_keys c.api_keys) [
  | [] ↦ if not (is_empty (trim_space c.api_key)) then trim_space c.api_key ∷ [] else []
  | k ∷ ks ↦ k ∷ ks
]
