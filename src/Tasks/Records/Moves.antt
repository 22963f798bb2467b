-- ===== src/Tasks/Records/Moves.antt =====
-- What one call does to a run and its events, in four cases (db/task.go).
use relay_gateway.Common.Base.{
  ℕ, ◌+◌, ◌≡◌, refl, ap, subst, ◌∙◌, inl, inr, Bool, true, false, not, ◌&&◌, Option, none, some, [],
  ◌∷◌, ◌++◌, if◌then◌else◌, Bool-cases, Option-cases,
}
use relay_gateway.Common.Text.{Text, codes, text_eq, text_eq_iff, is_empty, trim_space}
use relay_gateway.Tasks.Runs.{TaskRun}
use relay_gateway.Tasks.Runs.Advance.{op-Pointwise}
use relay_gateway.Tasks.Records.{
  update_run, project, update_projection, update_submission_state, update_result,
  update_provider_task_id, find_alias, add_alias, record_task_alias, append_attempt, has_event,
  count_event, add_event, append_event,
}
use relay_gateway.Tasks.RunStore.{
  TaskStore, TaskAlias, TaskEvent, find_run, insert_run, is_retention, with_defaults, add_run,
  create_task_run, or_default, or_not_found,
}
use relay_gateway.Tasks.Records.System.{
  Call, creates, projects, sets_submission, sets_result, sets_provider, records_alias,
  appends_attempt, appends_event, on_runs, apply_call, sequence_at, sequence_at-found, find_run-id,
  sequence_at-update_run, sequence_at-counted, sequence_at-other, sequence_at-insert_run,
  sequence_at-Pointwise,
}

-- For the run `j`; a new run starts with `n` events.
pub data Moves (j : Text) (n : ℕ) (s s' : TaskStore) : Type 0 where
  stays : sequence_at j s'.runs ≡ sequence_at j s.runs → s'.events ≡ s.events → Moves j n s s'
  is_new :
      sequence_at j s.runs ≡ none
      → sequence_at j s'.runs ≡ some n
      → s'.events ≡ s.events
      → Moves j n s s'
  counts :
      (k : ℕ) (e : TaskEvent)
      → sequence_at j s.runs ≡ some k
      → sequence_at j s'.runs ≡ some (k + 1)
      → s'.events ≡ s.events ++ e ∷ []
      → e.task_run_id ≡ j
      → e.sequence ≡ k + 1
      → Moves j n s s'
  elsewhere :
      (e : TaskEvent)
      → sequence_at j s'.runs ≡ sequence_at j s.runs
      → s'.events ≡ s.events ++ e ∷ []
      → text_eq e.task_run_id j ≡ false
      → Moves j n s s'

same_store : (j : Text) (n : ℕ) (s : TaskStore) → Moves j n s s
same_store j n s = stays refl refl

module _ {ℓ} {A : Type ℓ} where
  guarded-Moves :
      (j : Text) (n : ℕ) (s : TaskStore) (b : Bool) (a : A) (x : TaskStore × A)
      → Moves j n s x.0
      → Moves j n s (if b then (s, a) else x).0
  guarded-Moves j n s true a x p = same_store j n s
  guarded-Moves j n s false a x p = p

inserted-Moves :
    (j : Text) (run : TaskRun) (s : TaskStore)
    → find_run run.id s.runs ≡ none
    → Moves j run.event_sequence s (record s { runs = insert_run run s.runs })
inserted-Moves j run s e = elim (Bool-cases (text_eq run.id j)) [
  | inr d ↦ stays (sequence_at-insert_run j run s.runs e ∙ (rw d refl)) refl
  | inl d ↦
      let same = (text_eq_iff run.id j).0 d in
      let before : sequence_at j s.runs ≡ none =
        subst (λ k. sequence_at k s.runs ≡ none) same (sequence_at-found run.id s.runs none e) in
      is_new before (sequence_at-insert_run j run s.runs e ∙ (rw d refl)) refl
]

add_run-Moves :
    (j : Text) (run : TaskRun) (s : TaskStore)
    → Moves j run.event_sequence s (add_run run s (find_run run.id s.runs)).0
add_run-Moves j run s = elim (Option-cases (find_run run.id s.runs)) [
  | inr (r, e) ↦ rw e (same_store j run.event_sequence s)
  | inl e ↦ rw e (inserted-Moves j run s e)
]

create_task_run-Moves :
    (j : Text) (run : TaskRun) (now : ℕ) (s : TaskStore)
    → Moves j run.event_sequence s (create_task_run run now s).0
unfolding create_task_run
create_task_run-Moves j run now s =
    guarded-Moves j run.event_sequence s (is_empty (trim_space run.id)) _ _ (
      guarded-Moves j run.event_sequence s
        (not (is_empty run.media_retention) && not (is_retention run.media_retention)) _ _
        (add_run-Moves j (with_defaults run now) s))

update-Moves :
    (j : Text) (n : ℕ) (id : Text) (f : TaskRun → TaskRun) (s : TaskStore)
    → ((r : TaskRun) → (f r).id ≡ r.id)
    → ((r : TaskRun) → (f r).event_sequence ≡ r.event_sequence)
    → Moves j n s (record s { runs = (update_run id f s.runs).0 })
update-Moves j n id f s h k = stays (sequence_at-update_run j id f s.runs h k) refl

-- The store once an event is written and its run is updated.
abbrev pub with_event : (TaskRun → TaskRun) → TaskRun → TaskEvent → TaskStore → TaskStore
with_event f run e s = record s {
  runs = (update_run run.id f s.runs).0;
  events = s.events ++ e ∷ [];
}

pub with_event-Moves :
    (j : Text) (n : ℕ) (f : TaskRun → TaskRun) (run : TaskRun) (e : TaskEvent) (s : TaskStore)
    → ((r : TaskRun) → (f r).id ≡ r.id)
    → (f run).event_sequence ≡ run.event_sequence + 1
    → find_run run.id s.runs ≡ some run
    → e.task_run_id ≡ run.id
    → e.sequence ≡ run.event_sequence + 1
    → Moves j n s (with_event f run e s)
with_event-Moves j n f run e s h one g i q = elim (Bool-cases (text_eq run.id j)) [
  | inr d ↦ elsewhere e (sequence_at-other j run.id f s.runs h d) refl (rw i d)
  | inl d ↦
      subst (λ k. Moves k n s (with_event f run e s)) ((text_eq_iff run.id j).0 d)
        (counts run.event_sequence e (sequence_at-found run.id s.runs (some run) g)
          (sequence_at-counted run.id f s.runs run h g ∙ ap some one) refl i q)
]

add_event-Moves :
    (j : Text) (n : ℕ) (id event_type payload : Text) (now : ℕ) (s : TaskStore)
    → Moves j n s (add_event event_type payload now s (or_not_found (find_run id s.runs))).0
add_event-Moves j n id event_type payload now s = elim (Option-cases (find_run id s.runs)) [
  | inl e ↦ rw e (same_store j n s)
  | inr (run, e) ↦ rw e (
      guarded-Moves j n s (has_event run.id (run.event_sequence + 1) s.events) _ _ (
        with_event-Moves j n (count_event now) run _ s (λ r. refl) refl
          (ap (λ k. find_run k s.runs) (find_run-id id s.runs run e) ∙ e) refl refl))
]

add_alias-Moves :
    (j : Text) (n : ℕ) (alias : TaskAlias) (s : TaskStore) (o : Option TaskAlias)
    → Moves j n s (add_alias alias s o).0
add_alias-Moves j n alias s none = stays refl refl
add_alias-Moves j n alias s (some a) = elim (Bool-cases (text_eq a.task_run_id alias.task_run_id)) [
  | inl e ↦ rw e (same_store j n s)
  | inr e ↦ rw e (same_store j n s)
]

-- How many events a created run says that it has.
abbrev pub first_number : Call → ℕ
first_number (creates run) = run.event_sequence
first_number _ = 0

pub apply_call-Moves :
    (j : Text) (s : TaskStore) (call : Call) (now : ℕ)
    → Moves j (first_number call) s (apply_call s call now)
unfolding apply_call update_projection update_submission_state update_result update_provider_task_id
    record_task_alias append_attempt append_event
apply_call-Moves j s (creates run) now = create_task_run-Moves j run now s
apply_call-Moves j s (projects run) now =
    guarded-Moves j 0 s _ _ _
      (update-Moves j 0 (trim_space run.id) (project run now) s (λ r. refl) (λ r. refl))
apply_call-Moves j s (sets_submission id state task_error) now =
    guarded-Moves j 0 s _ _ _ (update-Moves j 0 (trim_space id) _ s (λ r. refl) (λ r. refl))
apply_call-Moves j s (sets_result id body truncated) now =
    guarded-Moves j 0 s _ _ _ (update-Moves j 0 (trim_space id) _ s (λ r. refl) (λ r. refl))
apply_call-Moves j s (sets_provider id provider) now =
    guarded-Moves j 0 s _ _ _ (update-Moves j 0 (trim_space id) _ s (λ r. refl) (λ r. refl))
apply_call-Moves j s (records_alias id lookup source) now =
    let alias : TaskAlias = record {
      id = 0;
      task_run_id = trim_space id;
      lookup_id = trim_space lookup;
      source = or_default (codes "create") source;
    } in
    guarded-Moves j 0 s _ _ _
      (add_alias-Moves j 0 alias s (find_alias (trim_space lookup) s.aliases))
apply_call-Moves j s (appends_attempt attempt) now = guarded-Moves j 0 s _ _ _ (stays refl refl)
apply_call-Moves j s (appends_event id event_type payload) now =
    guarded-Moves j 0 s _ _ _
      (add_event-Moves j 0 (trim_space id) (trim_space event_type) payload now s)
apply_call-Moves j s (on_runs op) now =
    stays (sequence_at-Pointwise j s.runs _ (op-Pointwise s.runs op now)) refl
