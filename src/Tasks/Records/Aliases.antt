-- ===== src/Tasks/Records/Aliases.antt =====
-- Aliases are never pointed to another run (db/task.go, `RecordTaskAliasContext`).
use relay_gateway.Common.Base.{
  ℕ, ◌+◌, ◌≡◌, refl, sym, ap, ◌∙◌, inl, inr, Bool, true, false, Option, none, some, List, [], ◌∷◌,
  ◌++◌, if◌then◌else◌, Bool-cases, Option-cases, arith,
}
use relay_gateway.Common.Results.{Result, ok, err}
use relay_gateway.Common.Text.{Text, codes, text_eq, is_empty, trim_space}
use relay_gateway.Tasks.Runs.{TaskRun}
use relay_gateway.Tasks.Records.{
  find_alias, get_by_alias, add_alias, record_task_alias, update_projection,
  update_submission_state, update_result, update_provider_task_id, append_attempt, append_event,
  add_event, has_event,
}
use relay_gateway.Tasks.RunStore.{
  TaskStore, TaskAlias, RecordError, find_run, get_task_run, or_default, or_not_found,
  create_task_run, add_run, with_defaults,
}
use relay_gateway.Tasks.Records.System.{
  Call, creates, projects, sets_submission, sets_result, sets_provider, records_alias,
  appends_attempt, appends_event, on_runs, apply_call, run_calls, sequence_at, sequence_at-found,
  find_run-id,
}
use relay_gateway.Tasks.Records.Moves.{Moves, stays, is_new, counts, elsewhere, apply_call-Moves}

find_alias-append :
    (l : Text) (xs ys : List TaskAlias) (a : TaskAlias)
    → find_alias l xs ≡ some a
    → find_alias l (xs ++ ys) ≡ some a
unfolding find_alias
find_alias-append l [] ys a e = cc
find_alias-append l (x ∷ xs) ys a e = ground (arith, find_alias-append l xs ys a)

-- What is kept for one alias and one run.
pub record Keeps (l id : Text) (s s' : TaskStore) : Type 0 where
  pub alias : (a : TaskAlias) → find_alias l s.aliases ≡ some a → find_alias l s'.aliases ≡ some a
  pub run : (n : ℕ) → sequence_at id s.runs ≡ some n → (m : ℕ) × (sequence_at id s'.runs ≡ some m)

-- The aliases that a call leaves are the old ones, with more at the end.
abbrev More : TaskStore → TaskStore → Type 0
More s s' = (ys : List TaskAlias) × (s'.aliases ≡ s.aliases ++ ys)

append_nil : (xs : List TaskAlias) → xs ≡ xs ++ []
append_nil [] = refl
append_nil (x ∷ xs) = ap (λ t. x ∷ t) (append_nil xs)

same_aliases : (xs : List TaskAlias) → (ys : List TaskAlias) × (xs ≡ xs ++ ys)
same_aliases xs = ([], append_nil xs)

module _ {ℓ} {A : Type ℓ} where
  guarded-More :
      (s : TaskStore) (b : Bool) (a : A) (x : TaskStore × A)
      → More s x.0
      → More s (if b then (s, a) else x).0
  guarded-More s true a x p = same_aliases s.aliases
  guarded-More s false a x p = p

add_alias-More :
    (alias : TaskAlias) (s : TaskStore) (o : Option TaskAlias) → More s (add_alias alias s o).0
add_alias-More alias s none = (_, refl)
add_alias-More alias s (some a) = elim (Bool-cases (text_eq a.task_run_id alias.task_run_id)) [
  | inl e ↦ rw e (same_aliases s.aliases)
  | inr e ↦ rw e (same_aliases s.aliases)
]

add_run-More : (run : TaskRun) (s : TaskStore) (o : Option TaskRun) → More s (add_run run s o).0
add_run-More run s none = same_aliases s.aliases
add_run-More run s (some r) = same_aliases s.aliases

add_event-More :
    (event_type payload : Text) (now : ℕ) (s : TaskStore) (r : Result RecordError TaskRun)
    → More s (add_event event_type payload now s r).0
add_event-More event_type payload now s (err e) = same_aliases s.aliases
add_event-More event_type payload now s (ok run) =
    guarded-More s (has_event run.id (run.event_sequence + 1) s.events) _ _ (same_aliases s.aliases)

apply_call-More : (s : TaskStore) (call : Call) (now : ℕ) → More s (apply_call s call now)
unfolding apply_call create_task_run update_projection update_submission_state update_result
    update_provider_task_id record_task_alias append_attempt append_event
apply_call-More s (creates run) now = guarded-More s (is_empty (trim_space run.id)) _ _ (
    guarded-More s _ _ _
      (add_run-More (with_defaults run now) s (find_run (trim_space run.id) s.runs)))
apply_call-More s (projects run) now = guarded-More s _ _ _ (same_aliases s.aliases)
apply_call-More s (sets_submission id state task_error) now =
    guarded-More s _ _ _ (same_aliases s.aliases)
apply_call-More s (sets_result id body truncated) now =
    guarded-More s _ _ _ (same_aliases s.aliases)
apply_call-More s (sets_provider id provider) now = guarded-More s _ _ _ (same_aliases s.aliases)
apply_call-More s (records_alias id lookup source) now =
    let alias : TaskAlias = record {
      id = 0;
      task_run_id = trim_space id;
      lookup_id = trim_space lookup;
      source = or_default (codes "create") source;
    } in
    guarded-More s _ _ _ (add_alias-More alias s (find_alias (trim_space lookup) s.aliases))
apply_call-More s (appends_attempt attempt) now = guarded-More s _ _ _ (same_aliases s.aliases)
apply_call-More s (appends_event id event_type payload) now = guarded-More s _ _ _ (
    add_event-More (trim_space event_type) payload now s
      (or_not_found (find_run (trim_space id) s.runs)))
apply_call-More s (on_runs op) now = same_aliases s.aliases

Moves-run :
    (id : Text) (k : ℕ) (s s' : TaskStore)
    → Moves id k s s'
    → (n : ℕ) → sequence_at id s.runs ≡ some n
    → (m : ℕ) × (sequence_at id s'.runs ≡ some m)
Moves-run id k s s' (stays e _) n h = (n, e ∙ h)
Moves-run id k s s' (is_new _ e _) n h = (k, e)
Moves-run id k s s' (counts m _ _ e _ _ _) n h = (m + 1, e)
Moves-run id k s s' (elsewhere _ e _ _) n h = (n, e ∙ h)

apply_call-Keeps :
    (l id : Text) (s : TaskStore) (call : Call) (now : ℕ) → Keeps l id s (apply_call s call now)
apply_call-Keeps l id s call now = record {
  alias = λ a e.
      let (ys, p) = apply_call-More s call now in
      ap (find_alias l) p ∙ find_alias-append l s.aliases ys a e;
  run = λ n. Moves-run id _ s _ (apply_call-Moves id s call now) n;
}

pub run_calls-Keeps :
    (l id : Text) (s : TaskStore) (calls : List (Call × ℕ)) → Keeps l id s (run_calls s calls)
unfolding run_calls
run_calls-Keeps l id s [] = record { alias = λ a e. e; run = λ n e. (n, e) }
run_calls-Keeps l id s ((call, now) ∷ calls) =
    let first = apply_call-Keeps l id s call now in
    let rest = run_calls-Keeps l id (apply_call s call now) calls in
    record {
      alias = λ a e. rest.alias a (first.alias a e);
      run = λ n e. let (m, f) = first.run n e in rest.run m f;
    }

pub found_again :
    (id : Text) (rs : List TaskRun) (n : ℕ)
    → sequence_at id rs ≡ some n
    → (r : TaskRun) × (find_run id rs ≡ some r)
unfolding sequence_at
found_again id rs n e = elim (Option-cases (find_run id rs)) [
  | inr f ↦ f
  | inl f ↦ elim (none_some (sym (rw f at e))) [ ]
]
  where
    none_some : {n : ℕ} → some n ≡ none → ⊥
    none_some e = cc

-- An id that answers to a run still answers to that run after any sequence of calls: runs that are created
-- or projected, submission states, results, provider ids, aliases, attempts, events, status changes,
-- polls, claims and leases, whatever they are given and at any times.
pub run_calls-get_by_alias :
    (s : TaskStore) (lookup : Text) (calls : List (Call × ℕ)) (r : TaskRun)
    → get_by_alias lookup s ≡ ok r
    → (r' : TaskRun) × (get_by_alias lookup (run_calls s calls) ≡ ok r') × (r'.id ≡ r.id)
unfolding get_by_alias get_task_run
run_calls-get_by_alias s lookup calls r e = elim (Bool-cases (is_empty (trim_space lookup))) [
  | inl b ↦ elim (refuses (rw b at e)) [ ]
  | inr b ↦ elim (Option-cases (find_alias (trim_space lookup) s.aliases)) [
    | inl f ↦ elim (refuses (rw (b, f) at e)) [ ]
    | inr (a, f) ↦
        let found =
          or_not_found-inv (find_run (trim_space a.task_run_id) s.runs) (rw (b, f) at e) in
        let keeps = run_calls-Keeps (trim_space lookup) (trim_space a.task_run_id) s calls in
        let (m, q) =
          keeps.run r.event_sequence
            (sequence_at-found (trim_space a.task_run_id) s.runs (some r) found) in
        let (r', f') = found_again (trim_space a.task_run_id) (run_calls s calls).runs m q in
        (
          r',
          rw (b, keeps.alias a f, f') refl,
          find_run-id (trim_space a.task_run_id) (run_calls s calls).runs r' f'
              ∙ sym (find_run-id (trim_space a.task_run_id) s.runs r found),
        )
  ]
]
  where
    refuses : {x : RecordError} → err x ≡ ok r → ⊥
    refuses e = cc

    or_not_found-inv : (o : Option TaskRun) → or_not_found o ≡ ok r → o ≡ some r
    or_not_found-inv none e = cc
    or_not_found-inv (some x) e = cc
