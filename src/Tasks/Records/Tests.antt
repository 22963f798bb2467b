-- ===== src/Tasks/Records/Tests.antt =====
-- The store of task runs at concrete inputs (db/task.go).
use relay_gateway.Common.Base.{ℕ, ◌≡◌, refl, false, none, some, List, [], ◌∷◌}
use relay_gateway.Common.Results.{ok, err}
use relay_gateway.Common.Text.{Text, codes, text_eq, trim_space}
use relay_gateway.Tasks.Runs.{TaskRun}
use relay_gateway.Tasks.Records.{
  record_task_alias, find_alias, get_by_alias, append_event, update_run, has_event,
}
use relay_gateway.Tasks.RunStore.{
  TaskStore, alias_conflict, find_run, insert_run, create_task_run, get_task_run,
}
use relay_gateway.Tasks.Records.System.{
  Call, creates, projects, records_alias, appends_event, sets_provider, apply_call, run_calls,
}
use relay_gateway.Tasks.Records.Aliases.{run_calls-get_by_alias}
use relay_gateway.Tasks.Records.Events.{numbers_of}

abbrev pub blank_run : Text → TaskRun
blank_run id = record {
  id = id;
  origin_request_id = [];
  task_kind = codes "video";
  operation = codes "create";
  channel_id = codes "c1";
  engine = codes "profile";
  profile_id = [];
  profile_revision = 0;
  profile_digest = [];
  media_retention = [];
  idempotency_key = codes "key";
  request_fingerprint = codes "f";
  polling_mode = codes "off";
  provider_task_id = [];
  submission_state = codes "submitting";
  task_status = codes "queued";
  task_outcome = codes "pending";
  poll_count = 0;
  poll_success_count = 0;
  poll_failure_count = 0;
  consecutive_poll_errors = 0;
  last_poll_at = none;
  next_poll_at = none;
  deadline_at = none;
  lease_owner = [];
  lease_expires_at = none;
  state_version = 0;
  event_sequence = 0;
  last_http_status = 0;
  result_body = [];
  result_truncated = false;
  task_error = [];
  accepted_at = some 5;
  completed_at = none;
  created_at = 5;
  updated_at = 5;
}

abbrev pub empty_store : TaskStore
empty_store = record { runs = []; aliases = []; attempts = []; events = []; next_alias = 1 }

abbrev store : TaskStore
store = record empty_store {
  runs = blank_run (codes "a") ∷ blank_run (codes "b") ∷ [];
  aliases =
      record { id = 1; task_run_id = codes "a"; lookup_id = codes "x"; source = codes "create" }
      ∷ [];
  next_alias = 2;
}

abbrev history : List (Call × ℕ)
history =
    (records_alias (codes "b") (codes "x") (codes "poll"), 10)
    ∷ (projects (blank_run (codes "a")), 11)
    ∷ (appends_event (codes "a") (codes "polled") [], 12)
    ∷ (sets_provider (codes "b") (codes "x"), 13)
    ∷ []

run_calls-get_by_alias_example :
    (r' : TaskRun) × (get_by_alias (codes "x") (run_calls store history) ≡ ok r')
    × (r'.id ≡ (blank_run (codes "a")).id)
unfolding get_by_alias get_task_run find_alias find_run text_eq trim_space
run_calls-get_by_alias_example =
    run_calls-get_by_alias store (codes "x") history (blank_run (codes "a")) refl

-- The second run may not take the alias of the first.
refused_alias :
    (record_task_alias (codes "b") (codes "x") (codes "poll") store).1 ≡ err alias_conflict
unfolding record_task_alias find_alias text_eq trim_space
refused_alias = refl

abbrev events_history : List (Call × ℕ)
events_history =
    (creates (blank_run (codes "a")), 9)
    ∷ (appends_event (codes "a") (codes "created") [], 10)
    ∷ (appends_event (codes "a") (codes "polled") [], 11)
    ∷ []

two_events : numbers_of (codes "a") (run_calls empty_store events_history).events ≡ 1 ∷ 2 ∷ []
unfolding numbers_of run_calls apply_call create_task_run append_event find_run insert_run
    update_run has_event text_eq trim_space
two_events = refl
