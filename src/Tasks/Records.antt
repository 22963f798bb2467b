-- ===== src/Tasks/Records.antt =====
-- What is stored with a task run (db/task.go, db/task_lease.go), over the tables of RunStore: its
-- projection, submission state and result, aliases, attempts and events, and groups of changes under a
-- lease.
pub mod System
pub mod Moves
pub mod Aliases
pub mod Events
pub mod Tests
use relay_gateway.Common.Base.{
  ℕ, ◌+◌, Bool, true, false, not, ◌&&◌, ◌||◌, Option, none, some, List, [], ◌∷◌, ◌++◌, ltb, ◌==◌,
  if◌then◌else◌,
}
use relay_gateway.Common.Results.{Result, ok, err, ◌>>=◌}
use relay_gateway.Common.Text.{Text, codes, text_eq, is_empty, trim_space, one_of}
use relay_gateway.Tasks.Runs.{TaskRun, is_task_terminal, has_id, holds_lease}
use relay_gateway.Tasks.Runs.Batch.{TaskAttempt}
use relay_gateway.Tasks.RunStore.{
  RecordError, TaskAlias, TaskEvent, TaskStore, add_run, alias_conflict, create_task_run,
  duplicate_key, find_by_idempotency, find_by_key, find_run, get_task_run, idempotency_conflict,
  identity_required, insert_run, invalid_retention, is_retention, not_lease_owner, only_run,
  or_default, or_not_found, or_now, record_not_found, runs_of_key, text_lt, with_defaults,
}

-- `UPDATE ... WHERE id = ?`, and whether a row was changed.
unfoldable pub update_run : Text → (TaskRun → TaskRun) → List TaskRun → List TaskRun × Bool
update_run id f [] = ([], false)
update_run id f (r ∷ rs) =
    let (rs', done) = update_run id f rs in
    if has_id id r then (f r ∷ rs, true) else (r ∷ rs', done)

-- The columns that a projection writes. The id, the retention, the lease, the version and the number of
-- events stay.
abbrev pub project : TaskRun → ℕ → TaskRun → TaskRun
project run now r = record run {
  id = r.id;
  media_retention = r.media_retention;
  lease_owner = r.lease_owner;
  lease_expires_at = r.lease_expires_at;
  state_version = r.state_version;
  event_sequence = r.event_sequence;
  created_at = r.created_at;
  updated_at = now;
}

-- The answer of an update that counts its rows.
abbrev pub updated : TaskStore → List TaskRun × Bool → TaskStore × Option RecordError
updated s (rs, done) = (record s { runs = rs }, if done then none else some record_not_found)

unfoldable pub update_projection : TaskRun → ℕ → TaskStore → TaskStore × Option RecordError
update_projection run now s =
    if is_empty (trim_space run.id)
    then (s, some identity_required)
    else updated s (update_run (trim_space run.id) (project run now) s.runs)

unfoldable pub update_submission_state :
    Text → Text → Text → ℕ → TaskStore → TaskStore × Option RecordError
update_submission_state id state task_error now s =
    let write : TaskRun → TaskRun = λ r. record r {
      submission_state = trim_space state;
      task_error = trim_space task_error;
      updated_at = now;
    } in
    if is_empty (trim_space id) || is_empty (trim_space state)
    then (s, some identity_required)
    else updated s (update_run (trim_space id) write s.runs)

-- These two do not ask whether there is a row.
unfoldable pub update_result : Text → Text → Bool → ℕ → TaskStore → TaskStore × Option RecordError
update_result id body truncated now s =
    let write : TaskRun → TaskRun =
      λ r. record r { result_body = body; result_truncated = truncated; updated_at = now } in
    if is_empty (trim_space id)
    then (s, some identity_required)
    else (record s { runs = (update_run (trim_space id) write s.runs).0 }, none)

unfoldable pub update_provider_task_id :
    Text → Text → ℕ → TaskStore → TaskStore × Option RecordError
update_provider_task_id id provider now s =
    let write : TaskRun → TaskRun =
      λ r. record r { provider_task_id = trim_space provider; updated_at = now } in
    if is_empty (trim_space id)
    then (s, some identity_required)
    else (record s { runs = (update_run (trim_space id) write s.runs).0 }, none)

unfoldable pub find_alias : Text → List TaskAlias → Option TaskAlias
find_alias lookup [] = none
find_alias lookup (a ∷ rest) = if text_eq a.lookup_id lookup then some a else find_alias lookup rest

unfoldable pub get_by_alias : Text → TaskStore → Result RecordError TaskRun
get_by_alias lookup s =
    if is_empty (trim_space lookup)
    then err record_not_found
    else or_not_found (find_alias (trim_space lookup) s.aliases)
      >>= (λ a. get_task_run a.task_run_id s)

abbrev pub add_alias :
    TaskAlias → TaskStore → Option TaskAlias → TaskStore × Result RecordError TaskAlias
add_alias alias s (some a) =
    if text_eq a.task_run_id alias.task_run_id
    then (s, ok (record alias { id = a.id }))
    else (s, err alias_conflict)
add_alias alias s none =
    let a = record alias { id = s.next_alias } in
    (record s { aliases = s.aliases ++ a ∷ []; next_alias = s.next_alias + 1 }, ok a)

unfoldable pub record_task_alias :
    Text → Text → Text → TaskStore → TaskStore × Result RecordError TaskAlias
record_task_alias task_run_id lookup source s =
    let alias : TaskAlias = record {
      id = 0;
      task_run_id = trim_space task_run_id;
      lookup_id = trim_space lookup;
      source = or_default (codes "create") source;
    } in
    if is_empty (trim_space task_run_id) || is_empty (trim_space lookup)
    then (s, err identity_required)
    else add_alias alias s (find_alias (trim_space lookup) s.aliases)

unfoldable pub append_attempt : TaskAttempt → ℕ → TaskStore → TaskStore × Option RecordError
append_attempt attempt now s =
    let row = record attempt {
      task_run_id = trim_space attempt.task_run_id;
      attempt_type = trim_space attempt.attempt_type;
      started_at = if attempt.started_at == 0 then now else attempt.started_at;
    } in
    if is_empty (trim_space attempt.task_run_id) || is_empty (trim_space attempt.attempt_type)
    then (s, some identity_required)
    else (record s { attempts = s.attempts ++ row ∷ [] }, none)

-- The unique index on the run and the sequence.
unfoldable pub has_event : Text → ℕ → List TaskEvent → Bool
has_event id sequence [] = false
has_event id sequence (e ∷ es) =
    text_eq e.task_run_id id && e.sequence == sequence || has_event id sequence es

abbrev pub count_event : ℕ → TaskRun → TaskRun
count_event now run = record run {
  event_sequence = run.event_sequence + 1;
  state_version = run.state_version + 1;
  updated_at = now;
}

abbrev pub add_event :
    Text
    → Text
    → ℕ
    → TaskStore
    → Result RecordError TaskRun
    → TaskStore × Result RecordError TaskEvent
add_event event_type payload now s (err e) = (s, err e)
add_event event_type payload now s (ok run) =
    let event : TaskEvent = record {
      task_run_id = run.id;
      sequence = run.event_sequence + 1;
      event_type = event_type;
      payload = payload;
    } in
    if has_event run.id event.sequence s.events then (s, err duplicate_key) else (
      record s {
        runs = (update_run run.id (count_event now) s.runs).0;
        events = s.events ++ event ∷ [];
      },
      ok event,
    )

unfoldable pub append_event :
    Text → Text → Text → ℕ → TaskStore → TaskStore × Result RecordError TaskEvent
append_event task_run_id event_type payload now s =
    if is_empty (trim_space task_run_id) || is_empty (trim_space event_type)
    then (s, err identity_required)
    else add_event (trim_space event_type) payload now s
        (or_not_found (find_run (trim_space task_run_id) s.runs))

abbrev pub any_holds : Text → Text → ℕ → List TaskRun → Bool
any_holds id owner now [] = false
any_holds id owner now (r ∷ rs) = holds_lease id owner now r || any_holds id owner now rs

abbrev pub commit_or_rollback {ℓ} :
    {E : Type ℓ} → TaskStore → TaskStore × Option E → TaskStore × Option E
commit_or_rollback s (s', none) = (s', none)
commit_or_rollback s (s', some e) = (s, some e)

-- A group of changes in one transaction under the lease.
unfoldable pub with_task_run_lease :
    Text
    → Text
    → ℕ
    → (TaskStore → TaskStore × Option RecordError)
    → TaskStore
    → TaskStore × Option RecordError
with_task_run_lease id owner now apply s =
    if is_empty (trim_space id) || is_empty (trim_space owner)
    then (s, some identity_required)
    else if any_holds (trim_space id) (trim_space owner) now s.runs
    then commit_or_rollback s (apply s)
    else (s, some not_lease_owner)
