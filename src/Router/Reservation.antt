-- ===== src/Router/Reservation.antt =====
-- The reservation of a profile submission (router/profile_idempotency.go, `reserveProfileTaskRun`, and
-- protocol/profile.go, `EffectiveMediaRetention`). SHA-256 in hexadecimal is a parameter; what the
-- function reads of the candidate, the binding, the revision and the operation is one record.
pub mod Existing
pub mod Once
pub mod Tests
use relay_gateway.Common.Base.{
  ℕ, ◌+◌, ◌*◌, Bool, true, false, not, ◌&&◌, ◌||◌, Option, none, some, List, [], ◌∷◌, ◌++◌, ltb,
  leb, ◌==◌, if◌then◌else◌,
}
use relay_gateway.Common.Lists.{length, take}
use relay_gateway.Common.Results.{Result, ok, err}
use relay_gateway.Common.Text.{Text, codes, text_eq, is_empty, trim_space, equal_fold}
use relay_gateway.Tasks.Runs.{TaskRun}
use relay_gateway.Tasks.RunStore.{
  TaskStore, RecordError, idempotency_conflict, create_task_run, get_task_run, or_default,
}

pub record PollPlan : Type 0 where
  pub interval_ms : ℕ
  pub max_duration_ms : ℕ

pub record Submission : Type 0 where
  pub operation : Text  -- `binding.Operation`
  pub profile_id : Text
  pub channel_id : Text
  pub revision : ℕ
  pub profile_digest : Text
  pub media_retention : Text
  pub polling_mode : Text
  pub poll : Option PollPlan
  pub task_kind : Text
  pub idempotency_key : Text
  pub fingerprint : Text
  pub origin_request_id : Text

pub data ReserveError : Type 0 where
  incomplete conflict : ReserveError
  not_loaded : RecordError → ReserveError

-- A header that is too long or breaks the line counts as absent.
unfoldable pub has_line_break : Text → Bool
has_line_break [] = false
has_line_break (c ∷ s) = c == 13 || (c == 10 || has_line_break s)

unfoldable pub caller_idempotency_key : Text → Text
caller_idempotency_key header =
    let key = trim_space header in
    if is_empty key || (ltb 255 (length key) || has_line_break key) then [] else key

unfoldable pub reservation_id : (Text → Text) → Text → Text → Text → Text
reservation_id sha operation key fingerprint =
    codes "prr_"
    ++ take 60 (sha (trim_space operation ++ 0 ∷ trim_space key ++ 0 ∷ trim_space fingerprint))

abbrev pub ms : ℕ → ℕ
ms n = n * 1000000

-- When a run is due: only what a poll plan asks for, and only when it is polled.
abbrev pub deadline_of : Submission → ℕ → Option PollPlan → Option ℕ
deadline_of sub now none = none
deadline_of sub now (some plan) =
    if text_eq sub.polling_mode (codes "off") then none else some (now + ms plan.max_duration_ms)

abbrev pub next_poll_of : Submission → ℕ → Option PollPlan → Option ℕ
next_poll_of sub now none = none
next_poll_of sub now (some plan) =
    if text_eq sub.polling_mode (codes "background") then some (now + ms plan.interval_ms) else none

abbrev pub reserved_run : (Text → Text) → Submission → ℕ → TaskRun
reserved_run sha sub now = record {
  id = reservation_id sha sub.operation sub.idempotency_key sub.fingerprint;
  origin_request_id = trim_space sub.origin_request_id;
  task_kind = sub.task_kind;
  operation = sub.operation;
  channel_id = sub.channel_id;
  engine = codes "profile";
  profile_id = sub.profile_id;
  profile_revision = sub.revision;
  profile_digest = sub.profile_digest;
  media_retention = or_default (codes "disabled") sub.media_retention;
  idempotency_key = sub.idempotency_key;
  request_fingerprint = sub.fingerprint;
  polling_mode = sub.polling_mode;
  provider_task_id = [];
  submission_state = codes "submitting";
  task_status = codes "queued";
  task_outcome = codes "pending";
  poll_count = 0;
  poll_success_count = 0;
  poll_failure_count = 0;
  consecutive_poll_errors = 0;
  last_poll_at = none;
  next_poll_at = next_poll_of sub now sub.poll;
  deadline_at = deadline_of sub now sub.poll;
  lease_owner = [];
  lease_expires_at = none;
  state_version = 0;
  event_sequence = 0;
  last_http_status = 0;
  result_body = [];
  result_truncated = false;
  task_error = [];
  accepted_at = some now;
  completed_at = none;
  created_at = 0;
  updated_at = 0;
}

-- The run that was there before, if it is of the same request.
abbrev pub check_existing :
    Submission → Result RecordError TaskRun → Result ReserveError (TaskRun × Bool)
check_existing sub (err e) = err (not_loaded e)
check_existing sub (ok run) =
    if not (text_eq run.idempotency_key sub.idempotency_key)
      || (not (text_eq run.request_fingerprint sub.fingerprint)
          || not (text_eq run.operation sub.operation))
    then err conflict
    else ok (run, false)

abbrev pub after_create :
    Submission
    → Text
    → TaskStore × Result RecordError TaskRun
    → TaskStore × Result ReserveError (TaskRun × Bool)
after_create sub id (s, ok run) = (s, ok (run, true))
after_create sub id (s, err e) = (s, check_existing sub (get_task_run id s))

-- The flag says whether this call created the run.
unfoldable pub reserve_task_run :
    (Text → Text) → Submission → ℕ → TaskStore → TaskStore × Result ReserveError (TaskRun × Bool)
reserve_task_run sha sub now s =
    if is_empty (trim_space sub.idempotency_key) || is_empty (trim_space sub.fingerprint)
    then (s, err incomplete)
    else after_create sub (reservation_id sha sub.operation sub.idempotency_key sub.fingerprint)
        (create_task_run (reserved_run sha sub now) now s)

unfoldable pub can_be_reused : TaskRun → Bool
can_be_reused run =
    equal_fold (trim_space run.submission_state) (codes "accepted")
    && not (is_empty (trim_space run.provider_task_id))

-- `profileSubmissionErrorState`, by `MayHaveSubmitted` of an executor's error.
abbrev pub submission_error_state : Option Bool → Text
submission_error_state (some true) = codes "submission_unknown"
submission_error_state _ = codes "rejected"
