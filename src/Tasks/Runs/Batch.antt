-- ===== src/Tasks/Runs/Batch.antt =====
-- A batch of polls that gateway_wait made is stored at once (db/task.go,
-- `PersistTaskPollBatchContext`).
use native.Mathlib.Nat.{add-zero}
use relay_gateway.Common.Base.{
  ℕ, ◌+◌, ◌≡◌, refl, sym, subst, Bool, Option, none, some, List, [], ◌∷◌, ◌++◌, arith, ltb, ◌==◌,
  if◌then◌else◌,
}
use relay_gateway.Common.Lists.{length}
use relay_gateway.Common.Text.{Text, codes, is_empty, trim_space, text_eq}
use relay_gateway.Tasks.Runs.{
  TaskRun, TaskError, identity_required, record_not_found, Changed, rejected, changed, transact,
  has_id, count_poll,
}

pub record TaskPollRecord : Type 0 where
  pub started_at : ℕ
  pub finished_at : ℕ
  pub http_status : ℕ
  pub outcome : Text
  pub error : Text

-- A row of the table of attempts.
pub record TaskAttempt : Type 0 where
  pub task_run_id : Text
  pub attempt_type : Text
  pub started_at : ℕ
  pub finished_at : ℕ
  pub http_status : ℕ
  pub outcome : Text
  pub error : Text

-- The variables of the loop.
pub record BatchCounts : Type 0 where
  pub success_count : ℕ
  pub failure_count : ℕ
  pub consecutive_errors : ℕ
  pub last_poll_at : Option ℕ
  pub last_http_status : ℕ

abbrev pub started : ℕ → TaskPollRecord → ℕ
started now p = if p.started_at == 0 then now else p.started_at

abbrev pub finished : ℕ → TaskPollRecord → ℕ
finished now p = if p.finished_at == 0 then started now p else p.finished_at

abbrev pub outcome_or_failed : TaskPollRecord → Text
outcome_or_failed p =
    if is_empty (trim_space p.outcome) then codes "failed" else trim_space p.outcome

abbrev pub is_success : TaskPollRecord → Bool
is_success p = text_eq (outcome_or_failed p) (codes "success")

unfoldable pub count_record : ℕ → BatchCounts → TaskPollRecord → BatchCounts
count_record now c p =
    let seen = record c {
      last_poll_at = some (finished now p);
      last_http_status = if ltb 0 p.http_status then p.http_status else c.last_http_status;
    } in
    if is_success p
    then record seen { success_count = c.success_count + 1; consecutive_errors = 0 }
    else record seen {
      failure_count = c.failure_count + 1;
      consecutive_errors = c.consecutive_errors + 1;
    }

unfoldable pub count_records : ℕ → BatchCounts → List TaskPollRecord → BatchCounts
unfolding count_record
count_records now c [] = c
count_records now c (p ∷ ps) = count_records now (count_record now c p) ps

unfoldable pub batch_attempt : Text → ℕ → TaskPollRecord → TaskAttempt
batch_attempt id now p = record {
  task_run_id = id;
  attempt_type = codes "poll";
  started_at = started now p;
  finished_at = finished now p;
  http_status = p.http_status;
  outcome = outcome_or_failed p;
  error = trim_space p.error;
}

abbrev pub batch_attempts : Text → ℕ → List TaskPollRecord → List TaskAttempt
batch_attempts id now [] = []
batch_attempts id now (p ∷ ps) = batch_attempt id now p ∷ batch_attempts id now ps

-- The loop begins with the counters of the row, and without a time.
abbrev pub initial_counts : TaskRun → BatchCounts
initial_counts run = record {
  success_count = run.poll_success_count;
  failure_count = run.poll_failure_count;
  consecutive_errors = run.consecutive_poll_errors;
  last_poll_at = none;
  last_http_status = run.last_http_status;
}

unfoldable pub count_batch : List TaskPollRecord → ℕ → TaskRun → Changed
unfolding count_records
count_batch records now run =
    let c = count_records now (initial_counts run) records in
    changed (record run {
      poll_count = run.poll_count + length records;
      poll_success_count = c.success_count;
      poll_failure_count = c.failure_count;
      consecutive_poll_errors = c.consecutive_errors;
      last_poll_at = c.last_poll_at;
      last_http_status = c.last_http_status;
      state_version = run.state_version + 1;
      updated_at = now;
    })

-- The two tables that the transaction writes.
pub record PollTables : Type 0 where
  pub runs : List TaskRun
  pub attempts : List TaskAttempt

unfoldable pub persist_poll_batch :
    PollTables → Text → List TaskPollRecord → ℕ → PollTables × Option TaskError
persist_poll_batch tables id records now =
    let (runs', e) =
      transact (has_id (trim_space id)) record_not_found (count_batch records now) tables.runs in
    if is_empty (trim_space id)
    then (tables, some identity_required)
    else if length records == 0
    then (tables, none)
    else elim e [
      | some missing ↦ (tables, some missing)
      | none ↦ (
        record {
          runs = runs';
          attempts = tables.attempts ++ batch_attempts (trim_space id) now records;
        },
        none,
      )
    ]

-- The row after a change, or the row itself.
abbrev pub row_after : TaskRun → Changed → TaskRun
row_after run (rejected e) = run
row_after run (changed run') = run'

-- The polls of the batch counted one by one.
unfoldable pub count_each : List TaskPollRecord → TaskRun → TaskRun
count_each [] run = run
count_each (p ∷ ps) run =
    count_each ps (row_after run (count_poll (is_success p) p.http_status (finished 0 p) run))

-- The counters on which the two ways have to agree.
record Agrees (c : BatchCounts) (n : ℕ) (run : TaskRun) : Type 0 where
  polls : run.poll_count ≡ n
  successes : run.poll_success_count ≡ c.success_count
  failures : run.poll_failure_count ≡ c.failure_count
  errors : run.consecutive_poll_errors ≡ c.consecutive_errors
  status : run.last_http_status ≡ c.last_http_status

count_record-Agrees :
    (now n : ℕ) (c : BatchCounts) (p : TaskPollRecord) (run : TaskRun)
    → Agrees c n run
    → Agrees
        (count_record now c p)
        (n + 1)
        (row_after run (count_poll (is_success p) p.http_status (finished 0 p) run))
unfolding count_record count_poll
count_record-Agrees now n c p run a = record {
  polls = ground (arith, a.polls);
  successes = ground (arith, a.successes);
  failures = ground (arith, a.failures);
  errors = ground (arith, a.errors);
  status = ground (arith, a.status);
}

count_records-Agrees :
    (now n : ℕ) (c : BatchCounts) (ps : List TaskPollRecord) (run : TaskRun)
    → Agrees c n run
    → Agrees (count_records now c ps) (n + length ps) (count_each ps run)
unfolding count_records count_each
count_records-Agrees now n c [] run a = rw (add-zero n) a
count_records-Agrees now n c (p ∷ ps) run a =
    subst (λ m. Agrees (count_records now (count_record now c p) ps) m (count_each (p ∷ ps) run))
      (omega arith)
      (count_records-Agrees now (n + 1) (count_record now c p) ps _
        (count_record-Agrees now n c p run a))

-- A batch leaves the counters of a run, and its last HTTP status, as counting its polls one by one in
-- the same order does.
pub count_batch-count_each :
    (records : List TaskPollRecord) (now : ℕ) (run : TaskRun)
    → let b = row_after run (count_batch records now run) in
      let s = count_each records run in
      (b.poll_count ≡ s.poll_count)
      × (b.poll_success_count ≡ s.poll_success_count)
      × (b.poll_failure_count ≡ s.poll_failure_count)
      × (b.consecutive_poll_errors ≡ s.consecutive_poll_errors)
      × (b.last_http_status ≡ s.last_http_status)
unfolding count_batch
count_batch-count_each records now run =
    let a =
      count_records-Agrees now run.poll_count (initial_counts run) records run (record {
        polls = refl;
        successes = refl;
        failures = refl;
        errors = refl;
        status = refl;
      }) in
    (sym a.polls, sym a.successes, sym a.failures, sym a.errors, sym a.status)
