-- ===== src/Tasks/Runs.antt =====
-- The table of task runs (db/task.go, db/task_lease.go): status changes, poll counters and leases. A
-- table is the list of its rows in the order of the primary key, and a transaction is one step, since
-- SQLite runs one writer at a time. A database error rolls back and leaves the table as it was. NULL in
-- a text column is "", all readings of the clock in one call are `now`, and an HTTP status is not
-- negative. The row that a claim returns and the `updated_at` that GORM sets by itself are left
-- out. `state_version` does not wrap: that would
-- take 2^64 updates.
pub mod System
pub mod Advance
pub mod Fencing
pub mod Takeover
pub mod Batch
pub mod Tests
use relay_gateway.Common.Base.{
  ℕ, ◌+◌, Bool, true, false, not, ◌&&◌, ◌||◌, Option, none, some, List, [], ◌∷◌, ◌++◌, ltb, leb,
  ◌==◌, if◌then◌else◌,
}
use relay_gateway.Common.Lists.{length, take}
use relay_gateway.Common.Text.{Text, codes, text_eq, is_empty, trim_space, to_lower, one_of}

pub record TaskRun : Type 0 where
  pub id : Text
  pub origin_request_id : Text
  pub task_kind : Text
  pub operation : Text
  pub channel_id : Text
  pub engine : Text
  pub profile_id : Text
  pub profile_revision : ℕ
  pub profile_digest : Text
  pub media_retention : Text
  pub idempotency_key : Text
  pub request_fingerprint : Text
  pub polling_mode : Text
  pub provider_task_id : Text
  pub submission_state : Text
  pub task_status : Text
  pub task_outcome : Text
  pub poll_count : ℕ
  pub poll_success_count : ℕ
  pub poll_failure_count : ℕ
  pub consecutive_poll_errors : ℕ
  pub last_poll_at : Option ℕ
  pub next_poll_at : Option ℕ
  pub deadline_at : Option ℕ
  pub lease_owner : Text
  pub lease_expires_at : Option ℕ
  pub state_version : ℕ
  pub event_sequence : ℕ
  pub last_http_status : ℕ
  pub result_body : Text
  pub result_truncated : Bool
  pub task_error : Text
  pub accepted_at : Option ℕ
  pub completed_at : Option ℕ
  pub created_at : ℕ
  pub updated_at : ℕ

pub data TaskError : Type 0 where
  identity_required record_not_found state_regression already_terminal : TaskError
  not_lease_owner lease_unavailable : TaskError

unfoldable pub task_status_rank : Text → ℕ
task_status_rank status =
    let s = to_lower (trim_space status) in
    if one_of s (codes "queued" ∷ codes "pending" ∷ codes "accepted" ∷ [])
    then 1
    else if one_of s (codes "processing" ∷ codes "running" ∷ codes "in_progress" ∷ [])
    then 2
    else if one_of s (codes "materializing" ∷ codes "storage_retry_pending" ∷ [])
    then 3
    else if one_of s (
        codes "completed"
        ∷ codes "succeeded"
        ∷ codes "failed"
        ∷ codes "cancelled"
        ∷ codes "canceled"
        ∷ codes "expired"
        ∷ codes "timeout"
        ∷ codes "timed_out"
        ∷ [])
    then 4
    else 0

abbrev pub is_task_terminal : Text → Bool
is_task_terminal status = task_status_rank status == 4

-- What the body of a transaction does to the row that it found.
pub data Changed : Type 0 where
  rejected : TaskError → Changed
  changed : TaskRun → Changed

-- The end of a transaction on the row `r`, which stands before the rows `t`.
abbrev pub commit : TaskRun → List TaskRun → Changed → List TaskRun × Option TaskError
commit r t (rejected e) = (r ∷ t, some e)
commit r t (changed r') = (r' ∷ t, none)

-- A transaction on the row that a query selects: an error leaves the table, and the update is by the
-- row's primary key.
unfoldable pub transact :
    (TaskRun → Bool)
    → TaskError
    → (TaskRun → Changed)
    → List TaskRun
    → List TaskRun × Option TaskError
transact query missing body [] = ([], some missing)
transact query missing body (r ∷ t) =
    let (t', e) = transact query missing body t in
    if query r then commit r t (body r) else (r ∷ t', e)

abbrev pub has_id : Text → TaskRun → Bool
has_id id r = text_eq r.id id

-- `lease_expires_at IS NULL OR lease_expires_at <= now`.
abbrev pub is_expired : Option ℕ → ℕ → Bool
is_expired none now = true
is_expired (some expires) now = leb expires now

-- `id = ? AND lease_owner = ? AND lease_expires_at > now`.
abbrev pub holds_lease : Text → Text → ℕ → TaskRun → Bool
holds_lease id owner now r =
    has_id id r && (text_eq r.lease_owner owner && not (is_expired r.lease_expires_at now))

unfoldable pub change_status : Text → Text → ℕ → TaskRun → Changed
change_status status outcome now run =
    let updated = record run {
      task_status = status;
      state_version = run.state_version + 1;
      updated_at = now;
      task_outcome = if not (is_empty outcome) then outcome else run.task_outcome;
      completed_at = if is_task_terminal status then some now else run.completed_at;
    } in
    if ltb (task_status_rank status) (task_status_rank run.task_status)
    then rejected state_regression
    else if is_task_terminal run.task_status && not (text_eq status run.task_status)
    then rejected already_terminal
    else changed updated

unfoldable pub update_status :
    List TaskRun → Text → Text → Text → ℕ → List TaskRun × Option TaskError
update_status t id status outcome now =
    if is_empty (trim_space id) || is_empty (trim_space status)
    then (t, some identity_required)
    else transact (has_id (trim_space id)) record_not_found
        (change_status (trim_space status) (trim_space outcome) now) t

unfoldable pub update_status_for_lease :
    List TaskRun → Text → Text → Text → Text → ℕ → List TaskRun × Option TaskError
update_status_for_lease t id owner status outcome now =
    if is_empty (trim_space id) || (is_empty (trim_space owner) || is_empty (trim_space status))
    then (t, some identity_required)
    else transact (holds_lease (trim_space id) (trim_space owner) now) not_lease_owner
        (change_status (trim_space status) (trim_space outcome) now) t

unfoldable pub count_poll : Bool → ℕ → ℕ → TaskRun → Changed
count_poll success http_status now run =
    let seen = record run {
      poll_count = run.poll_count + 1;
      last_poll_at = some now;
      state_version = run.state_version + 1;
      updated_at = now;
      last_http_status = if ltb 0 http_status then http_status else run.last_http_status;
    } in
    changed (
      if success
      then record seen {
        poll_success_count = run.poll_success_count + 1;
        consecutive_poll_errors = 0;
      }
      else record seen {
        poll_failure_count = run.poll_failure_count + 1;
        consecutive_poll_errors = run.consecutive_poll_errors + 1;
      })

unfoldable pub record_poll : List TaskRun → Text → Bool → ℕ → ℕ → List TaskRun × Option TaskError
record_poll t id success http_status now =
    if is_empty (trim_space id)
    then (t, some identity_required)
    else transact (has_id (trim_space id)) record_not_found (count_poll success http_status now) t

unfoldable pub record_poll_for_lease :
    List TaskRun → Text → Text → Bool → ℕ → ℕ → List TaskRun × Option TaskError
record_poll_for_lease t id owner success http_status now =
    if is_empty (trim_space id) || is_empty (trim_space owner)
    then (t, some identity_required)
    else transact (holds_lease (trim_space id) (trim_space owner) now) not_lease_owner
        (count_poll success http_status now) t

-- `taskLeaseOwner`: the name that a claim stores, with the random token that fences it.
unfoldable pub task_lease_owner : Text → Text → Option Text
task_lease_owner token owner =
    if is_empty (trim_space owner)
    then none
    else some (take 90 (trim_space owner) ++ codes ":" ++ token)

-- An early return of the error where there is no value.
abbrev pub or_refuse {ℓ} :
    {A : Type ℓ}
    → List TaskRun
    → TaskError
    → Option A
    → (A → List TaskRun × Option TaskError)
    → List TaskRun × Option TaskError
or_refuse t e none f = (t, some e)
or_refuse t e (some a) f = f a

abbrev pub two_minutes : ℕ
two_minutes = 120000000000

-- A lease that is not positive is replaced; here 0 stands for all of those.
abbrev pub lease_or_default : ℕ → ℕ
lease_or_default lease = if lease == 0 then two_minutes else lease

unfoldable pub take_lease : Text → ℕ → ℕ → TaskRun → Changed
take_lease owner lease now run = changed (record run {
  lease_owner = owner;
  lease_expires_at = some (now + lease_or_default lease);
  state_version = run.state_version + 1;
  updated_at = now;
})

abbrev pub final_statuses : List Text
final_statuses =
    codes "completed"
    ∷ codes "succeeded"
    ∷ codes "failed"
    ∷ codes "cancelled"
    ∷ codes "canceled"
    ∷ codes "expired"
    ∷ codes "timeout"
    ∷ codes "timed_out"
    ∷ []

-- The background query of `ClaimDueTaskRunContext`, with `backgroundTaskAcceptedSQL`.
unfoldable pub is_due : ℕ → TaskRun → Bool
is_due now r =
    text_eq r.polling_mode (codes "background")
    && (not (
          one_of r.task_status
            (codes "materializing" ∷ codes "storage_retry_pending" ∷ final_statuses))
        && (is_expired r.next_poll_at now
            && (is_expired r.lease_expires_at now
                && ((text_eq r.submission_state (codes "accepted") || is_empty r.submission_state)
                    && not (is_empty (trim_space r.provider_task_id))))))

-- `COALESCE(next_poll_at, created_at)`.
abbrev pub due_at : TaskRun → ℕ
due_at r = elim r.next_poll_at [ none ↦ r.created_at | some at ↦ at ]

abbrev pub is_before : TaskRun → TaskRun → Bool
is_before a b = ltb (due_at a) (due_at b) || (due_at a == due_at b && ltb a.created_at b.created_at)

-- The first due row in the order of the query.
unfoldable pub first_due : ℕ → List TaskRun → Option TaskRun
first_due now [] = none
first_due now (r ∷ t) =
    let later = first_due now t in
    if is_due now r
    then elim later [ none ↦ some r | some s ↦ if is_before s r then some s else some r ]
    else later

-- The update repeats the query's condition on the row that was found.
unfoldable pub claim_row : List TaskRun → Text → ℕ → ℕ → TaskRun → List TaskRun × Option TaskError
claim_row t holder lease now r =
    transact (λ s. has_id r.id s && is_due now s) lease_unavailable (take_lease holder lease now) t

unfoldable pub claim_first : List TaskRun → ℕ → ℕ → Text → List TaskRun × Option TaskError
claim_first t lease now holder =
    or_refuse t lease_unavailable (first_due now t) (claim_row t holder lease now)

unfoldable pub claim_due : List TaskRun → Text → Text → ℕ → ℕ → List TaskRun × Option TaskError
claim_due t token owner lease now =
    or_refuse t identity_required (task_lease_owner token owner) (claim_first t lease now)

-- The query of `ClaimTaskRunPollContext`.
unfoldable pub is_claimable : Text → ℕ → TaskRun → Bool
is_claimable id now r =
    has_id id r
    && ((not (text_eq r.polling_mode (codes "off")) || is_empty r.polling_mode)
        && (not (one_of r.task_status final_statuses)
            && (is_empty r.lease_owner || is_expired r.lease_expires_at now)))

unfoldable pub claim_id : List TaskRun → Text → ℕ → ℕ → Text → List TaskRun × Option TaskError
claim_id t id lease now holder =
    transact (is_claimable id now) lease_unavailable (take_lease holder lease now) t

unfoldable pub claim_poll :
    List TaskRun → Text → Text → Text → ℕ → ℕ → List TaskRun × Option TaskError
claim_poll t token id owner lease now =
    if is_empty (trim_space id)
    then (t, some identity_required)
    else or_refuse t identity_required (task_lease_owner token owner)
        (claim_id t (trim_space id) lease now)

-- `id = ? AND lease_owner = ?`.
abbrev pub owned_by : Text → Text → TaskRun → Bool
owned_by id owner r = has_id id r && text_eq r.lease_owner owner

unfoldable pub drop_lease : Option ℕ → ℕ → TaskRun → Changed
drop_lease next_poll now run = changed (record run {
  next_poll_at = elim next_poll [ none ↦ run.next_poll_at | some at ↦ some at ];
  lease_owner = [];
  lease_expires_at = none;
  state_version = run.state_version + 1;
  updated_at = now;
})

unfoldable pub reschedule : List TaskRun → Text → Text → ℕ → ℕ → List TaskRun × Option TaskError
reschedule t id owner next_poll now =
    if is_empty (trim_space id) || is_empty (trim_space owner)
    then (t, some identity_required)
    else transact (owned_by (trim_space id) (trim_space owner)) not_lease_owner
        (drop_lease (some next_poll) now) t

unfoldable pub release_lease : List TaskRun → Text → Text → ℕ → List TaskRun × Option TaskError
release_lease t id owner now =
    transact (owned_by (trim_space id) (trim_space owner)) not_lease_owner (drop_lease none now) t

unfoldable pub renew_lease : List TaskRun → Text → Text → ℕ → ℕ → List TaskRun × Option TaskError
renew_lease t id owner lease now =
    if lease == 0 || (is_empty (trim_space id) || is_empty (trim_space owner))
    then (t, some not_lease_owner)
    else transact (holds_lease id owner now) not_lease_owner
        (λ run. changed (record run { lease_expires_at = some (now + lease) })) t
