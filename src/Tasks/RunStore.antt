-- ===== src/Tasks/RunStore.antt =====
-- The store of task runs (db/task.go, media/retention.go): its tables, and the creation and look-up of
-- runs. The conventions are those of Tasks.Runs. Runs stand in the order of their ids; aliases, attempts
-- and events in the order of their keys, which grow, so that a new one goes to the end. What nothing reads
-- is left out: the key of an attempt or an event, the response meta of an attempt, the time of creation of
-- an alias or event. In an attempt, 0 is a time that is not set.
use relay_gateway.Common.Base.{
  ℕ, Bool, true, false, not, ◌&&◌, ◌||◌, Option, none, some, List, [], ◌∷◌, ltb, ◌==◌,
  if◌then◌else◌,
}
use relay_gateway.Common.Results.{Result, ok, err, ◌>>=◌}
use relay_gateway.Common.Text.{Text, codes, text_eq, is_empty, trim_space, one_of}
use relay_gateway.Tasks.Runs.{TaskRun, is_task_terminal, has_id}
use relay_gateway.Tasks.Runs.Batch.{TaskAttempt}

pub record TaskAlias : Type 0 where
  pub id : ℕ
  pub task_run_id : Text
  pub lookup_id : Text
  pub source : Text

pub record TaskEvent : Type 0 where
  pub task_run_id : Text
  pub sequence : ℕ  -- does not wrap, like the version
  pub event_type : Text
  pub payload : Text  -- `Data`

pub record TaskStore : Type 0 where
  pub runs : List TaskRun
  pub aliases : List TaskAlias
  pub attempts : List TaskAttempt
  pub events : List TaskEvent
  pub next_alias : ℕ  -- the next automatic key of the aliases

pub data RecordError : Type 0 where
  identity_required record_not_found duplicate_key invalid_retention : RecordError
  idempotency_conflict alias_conflict not_lease_owner : RecordError

-- `media.NormalizeRetention` of a policy that is not empty.
abbrev pub is_retention : Text → Bool
is_retention policy = one_of policy (codes "disabled" ∷ codes "best_effort" ∷ codes "required" ∷ [])

abbrev pub or_default : Text → Text → Text
or_default value s = if is_empty s then value else s

abbrev pub or_now : ℕ → Option ℕ → Option ℕ
or_now now none = some now
or_now now (some t) = some t

unfoldable pub find_run : Text → List TaskRun → Option TaskRun
find_run id [] = none
find_run id (r ∷ rs) = if has_id id r then some r else find_run id rs

-- The binary collation of SQLite.
unfoldable pub text_lt : Text → Text → Bool
text_lt [] [] = false
text_lt [] (b ∷ t) = true
text_lt (a ∷ s) [] = false
text_lt (a ∷ s) (b ∷ t) = ltb a b || (a == b && text_lt s t)

unfoldable pub insert_run : TaskRun → List TaskRun → List TaskRun
insert_run run [] = run ∷ []
insert_run run (r ∷ rs) =
    let rest = insert_run run rs in if text_lt run.id r.id then run ∷ r ∷ rs else r ∷ rest

-- The run that `CreateTaskRunContext` writes. GORM gives the columns that are empty their defaults and
-- the two timestamps the current time.
abbrev pub with_defaults : TaskRun → ℕ → TaskRun
with_defaults run now = record run {
  id = trim_space run.id;
  engine = or_default (codes "legacy") run.engine;
  polling_mode = or_default (codes "off") run.polling_mode;
  submission_state = or_default (codes "accepted") run.submission_state;
  task_status = or_default (codes "queued") run.task_status;
  task_outcome = or_default (codes "pending") run.task_outcome;
  accepted_at = or_now now run.accepted_at;
  completed_at =
      if is_task_terminal (or_default (codes "queued") run.task_status)
      then or_now now run.completed_at
      else run.completed_at;
  created_at = if run.created_at == 0 then now else run.created_at;
  updated_at = if run.updated_at == 0 then now else run.updated_at;
}

abbrev pub add_run : TaskRun → TaskStore → Option TaskRun → TaskStore × Result RecordError TaskRun
add_run run s (some r) = (s, err duplicate_key)
add_run run s none = (record s { runs = insert_run run s.runs }, ok run)

unfoldable pub create_task_run : TaskRun → ℕ → TaskStore → TaskStore × Result RecordError TaskRun
create_task_run run now s =
    if is_empty (trim_space run.id)
    then (s, err identity_required)
    else if not (is_empty run.media_retention) && not (is_retention run.media_retention)
    then (s, err invalid_retention)
    else add_run (with_defaults run now) s (find_run (trim_space run.id) s.runs)

abbrev pub or_not_found {ℓ} : {A : Type ℓ} → Option A → Result RecordError A
or_not_found none = err record_not_found
or_not_found (some a) = ok a

unfoldable pub get_task_run : Text → TaskStore → Result RecordError TaskRun
get_task_run id s = or_not_found (find_run (trim_space id) s.runs)

-- `engine = 'profile' AND idempotency_key = ? AND operation = ?`.
unfoldable pub runs_of_key : Text → Text → List TaskRun → List TaskRun
runs_of_key key operation [] = []
runs_of_key key operation (r ∷ rs) =
    let rest = runs_of_key key operation rs in
    if text_eq r.engine (codes "profile")
      && (text_eq r.idempotency_key key && text_eq r.operation operation)
    then r ∷ rest
    else rest

-- Where there is one row, its place in the order is of no matter.
abbrev pub only_run : List TaskRun → Result RecordError TaskRun
only_run [] = err record_not_found
only_run (r ∷ []) = ok r
only_run (r ∷ r' ∷ rs) = err idempotency_conflict

unfoldable pub find_by_key : Text → Text → TaskStore → Result RecordError TaskRun
find_by_key key operation s =
    if is_empty (trim_space key) || is_empty (trim_space operation)
    then err record_not_found
    else only_run (runs_of_key (trim_space key) (trim_space operation) s.runs)

unfoldable pub find_by_idempotency : Text → Text → Text → TaskStore → Result RecordError TaskRun
find_by_idempotency key operation fingerprint s = find_by_key key operation s >>= (λ run.
    if is_empty (trim_space fingerprint)
      || not (text_eq (trim_space run.request_fingerprint) (trim_space fingerprint))
    then err idempotency_conflict
    else ok run)
