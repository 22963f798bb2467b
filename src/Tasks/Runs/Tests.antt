-- ===== src/Tasks/Runs/Tests.antt =====
-- Task runs at concrete inputs (db/task.go).
use relay_gateway.Common.Base.{ℕ, ◌+◌, ◌≡◌, refl, true, false, none, some, List, [], ◌∷◌, arith}
use relay_gateway.Common.Lists.{get_elem?}
use relay_gateway.Common.Text.{Text, codes, text_eq, trim_space}
use relay_gateway.Tasks.Runs.{
  TaskRun, claim_poll, update_status_for_lease, record_poll_for_lease, renew_lease,
}
use relay_gateway.Tasks.Runs.System.{
  Op, updates_status, records_poll, claims_due, releases, run_ops,
}
use relay_gateway.Tasks.Runs.Advance.{Advances, run_ops-Advances}
use relay_gateway.Tasks.Runs.Takeover.{Refuses, lease_excludes}
use relay_gateway.Tasks.Runs.Batch.{
  TaskPollRecord, row_after, count_batch, count_each, count_batch-count_each,
}

abbrev video : TaskRun
video = record {
  id = codes "t1";
  origin_request_id = [];
  task_kind = codes "video";
  operation = codes "create";
  channel_id = codes "c";
  engine = codes "profile";
  profile_id = [];
  profile_revision = 1;
  profile_digest = [];
  media_retention = [];
  idempotency_key = [];
  request_fingerprint = [];
  deadline_at = none;
  event_sequence = 0;
  result_body = [];
  result_truncated = false;
  task_error = [];
  accepted_at = none;
  task_status = codes "queued";
  task_outcome = codes "pending";
  polling_mode = codes "background";
  submission_state = codes "accepted";
  provider_task_id = codes "p-7";
  poll_count = 0;
  poll_success_count = 0;
  poll_failure_count = 0;
  consecutive_poll_errors = 0;
  last_poll_at = none;
  next_poll_at = none;
  lease_owner = [];
  lease_expires_at = none;
  state_version = 1;
  last_http_status = 0;
  completed_at = none;
  created_at = 1000;
  updated_at = 1000;
}

-- Claimed, polled, completed, and then an update that comes too late.
abbrev life : List (Op × ℕ)
life =
    (claims_due (codes "x") (codes "w1") 5000, 2000)
    ∷ (records_poll (codes "t1") true 200, 2500)
    ∷ (updates_status (codes "t1") (codes "completed") (codes "success"), 2600)
    ∷ (updates_status (codes "t1") (codes "processing") [], 2700)
    ∷ []

run_ops-Advances_example :
    (r' : TaskRun) × (get_elem? (run_ops (video ∷ []) life) 0 ≡ some r') × Advances video r'
run_ops-Advances_example = run_ops-Advances (video ∷ []) life 0 video refl

abbrev holder : Text
holder = codes "w1:x"

abbrev leased : TaskRun
leased = record video { lease_owner = holder; lease_expires_at = some 9000 }

-- Another worker looks for work, tries to release the lease and counts a poll.
abbrev intruder : List (Op × ℕ)
intruder =
    (claims_due (codes "y") (codes "w2") 5000, 3000)
    ∷ (releases (codes "t1") (codes "w2:y"), 4000)
    ∷ (records_poll (codes "t1") false 502, 5000)
    ∷ []

lease_excludes_example :
    let t' = run_ops (leased ∷ []) intruder in
    Refuses t' (claim_poll t' (codes "y") (codes "t1") (codes "w2:y") 5000 8999)
    × Refuses t' (update_status_for_lease t' (codes "t1") (codes "w2:y") (codes "failed") [] 8999)
    × Refuses t' (record_poll_for_lease t' (codes "t1") (codes "w2:y") true 200 8999)
    × Refuses t' (renew_lease t' (codes "t1") (codes "w2:y") 5000 8999)
unfolding trim_space text_eq
lease_excludes_example =
    lease_excludes (codes "t1") holder 9000 refl (leased ∷ []) intruder (codes "y") (codes "w2:y")
      (codes "failed") [] true 200 5000 8999 refl refl
      ((λ i. record { owner = refl; until = refl }), tt)
      (omega arith, refl, (omega arith, refl, (omega arith, refl, tt))) (omega arith) refl

abbrev poll_at : ℕ → Text → ℕ → TaskPollRecord
poll_at status outcome at = record {
  started_at = at;
  finished_at = at + 5;
  http_status = status;
  outcome = outcome;
  error = [];
}

abbrev polls : List TaskPollRecord
polls =
    poll_at 200 (codes "pending") 100
    ∷ poll_at 0 (codes "failed") 200
    ∷ poll_at 200 (codes "success") 300
    ∷ []

count_batch-count_each_example :
    let b = row_after video (count_batch polls 400 video) in
    let s = count_each polls video in
    (b.poll_count ≡ s.poll_count)
    × (b.poll_success_count ≡ s.poll_success_count)
    × (b.poll_failure_count ≡ s.poll_failure_count)
    × (b.consecutive_poll_errors ≡ s.consecutive_poll_errors)
    × (b.last_http_status ≡ s.last_http_status)
count_batch-count_each_example = count_batch-count_each polls 400 video
