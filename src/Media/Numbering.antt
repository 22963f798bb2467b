-- ===== src/Media/Numbering.antt =====
-- The two writers of task events, together: db/task.go `AppendTaskEvent`, and db/media.go
-- `CompleteTaskRunAfterMediaContext`, which db/media_materialization_lease.go calls as well.
use relay_gateway.Common.Base.{ℕ, ◌≡◌, List, [], ◌∷◌, arith}
use relay_gateway.Common.Results.{Result, ok, err}
use relay_gateway.Tasks.Records.System as TaskSystem
use relay_gateway.Tasks.Records.System.{find_run-id}
use relay_gateway.Tasks.Records.Moves.{first_number, apply_call-Moves}
use relay_gateway.Tasks.Records.Events.{Numbered, Moves-Numbered}
use relay_gateway.Media.Rows.{MediaStore, MediaError, attempt}
use relay_gateway.Media.Objects.{prepare_object_deletion}
use relay_gateway.Media.Jobs.{complete_materialization, fail_materialization, time_or_null}
use relay_gateway.Media.DeletionJobs.{complete_deletion, fail_deletion}
use relay_gateway.Media.System.{
  Call, creates_asset, marks_available, marks_failed, completes_task, creates_object,
  acquires_reference, prepares_deletion, requests_delete, hard_deletes, completes_delete,
  retries_deletion, retries_fetching, creates_job, marks_delete_failed, creates_for_fetching,
  claims_asset, claims_job, claims_deletion, renews_job, renews_deletion, completes_job,
  completes_deletion, completes_held_job, completes_held_deletion, fails_job, fails_deletion,
  fails_held_job, fails_held_deletion, fails_with_asset, commits, call_of,
}
use relay_gateway.Media.Untouched.{
  create_asset-Leaves, mark_available-Leaves, mark_failed-Leaves, create_object-Leaves,
  acquire-Leaves, request_delete-Leaves, hard_delete-same, complete_asset_delete-Leaves,
  mark_delete_failed-Leaves, retry_deletion-Leaves, retry_materialization-Leaves, create_job-Leaves,
  create_for-Leaves, claim_asset-Leaves, claim_job-Leaves, claim_deletion-Leaves, renew_job-Leaves,
  renew_deletion-Leaves, complete_held-Leaves, fail_held-Leaves, fail_with_asset-Leaves,
  fail_deletion_held-Leaves, complete_deletion_held-Leaves,
}
use relay_gateway.Media.Completion.{
  KeepsNumbers, left-KeepsNumbers, committed-KeepsNumbers, complete_task-KeepsNumbers,
  commit-KeepsNumbers,
}

call_of-KeepsNumbers :
    (call : Call) (now : ℕ) (s : MediaStore) → Numbered s.tasks → KeepsNumbers (call_of call now s)
unfolding call_of complete_materialization fail_materialization complete_deletion fail_deletion
    prepare_object_deletion
call_of-KeepsNumbers (creates_asset asset) now s h =
    left-KeepsNumbers s _ h (create_asset-Leaves asset s)
call_of-KeepsNumbers (marks_available i object content_type sha256 size) now s h =
    left-KeepsNumbers s _ h (mark_available-Leaves i object content_type sha256 size now s)
call_of-KeepsNumbers (marks_failed i failure) now s h =
    left-KeepsNumbers s _ h (mark_failed-Leaves i failure now s)
call_of-KeepsNumbers (completes_task run kind) now s h = complete_task-KeepsNumbers run kind now s h
call_of-KeepsNumbers (creates_object object) now s h =
    left-KeepsNumbers s _ h (create_object-Leaves object s)
call_of-KeepsNumbers (acquires_reference i) now s h =
    left-KeepsNumbers s _ h (acquire-Leaves i now s)
call_of-KeepsNumbers (prepares_deletion i) now s h = committed-KeepsNumbers _ h
call_of-KeepsNumbers (requests_delete public_id reason) now s h =
    left-KeepsNumbers s _ h (request_delete-Leaves public_id reason now s)
call_of-KeepsNumbers (hard_deletes i) now s h = left-KeepsNumbers s _ h (hard_delete-same i s)
call_of-KeepsNumbers (completes_delete i) now s h =
    left-KeepsNumbers s _ h (complete_asset_delete-Leaves i now s)
call_of-KeepsNumbers (retries_deletion i) now s h =
    left-KeepsNumbers s _ h (retry_deletion-Leaves i now s)
call_of-KeepsNumbers (retries_fetching i) now s h =
    left-KeepsNumbers s _ h (retry_materialization-Leaves i now s)
call_of-KeepsNumbers (creates_job asset) now s h =
    left-KeepsNumbers s _ h (create_job-Leaves asset now s)
call_of-KeepsNumbers (marks_delete_failed i failure next_attempt) now s h =
    left-KeepsNumbers s _ h (mark_delete_failed-Leaves i failure (time_or_null next_attempt) now s)
call_of-KeepsNumbers (creates_for_fetching asset token owner lease) now s h =
    left-KeepsNumbers s _ h (create_for-Leaves asset token owner lease now s)
call_of-KeepsNumbers (claims_asset asset token owner lease) now s h =
    left-KeepsNumbers s _ h (claim_asset-Leaves asset token owner lease now s)
call_of-KeepsNumbers (claims_job token owner lease) now s h =
    left-KeepsNumbers s _ h (claim_job-Leaves token owner lease now s)
call_of-KeepsNumbers (claims_deletion token owner lease) now s h =
    left-KeepsNumbers s _ h (claim_deletion-Leaves token owner lease now s)
call_of-KeepsNumbers (renews_job i owner lease) now s h =
    left-KeepsNumbers s _ h (renew_job-Leaves i owner lease now s)
call_of-KeepsNumbers (renews_deletion i owner lease) now s h =
    left-KeepsNumbers s _ h (renew_deletion-Leaves i owner lease now s)
call_of-KeepsNumbers (completes_job i) now s h = left-KeepsNumbers s _ h (ground arith)
call_of-KeepsNumbers (completes_deletion i) now s h = left-KeepsNumbers s _ h (ground arith)
call_of-KeepsNumbers (completes_held_job i owner) now s h =
    left-KeepsNumbers s _ h (complete_held-Leaves i owner now s)
call_of-KeepsNumbers (completes_held_deletion i owner) now s h =
    left-KeepsNumbers s _ h (complete_deletion_held-Leaves i owner now s)
call_of-KeepsNumbers (fails_job i failure next_attempt) now s h =
    left-KeepsNumbers s _ h (ground arith)
call_of-KeepsNumbers (fails_deletion i failure next_attempt) now s h =
    left-KeepsNumbers s _ h (ground arith)
call_of-KeepsNumbers (fails_held_job i owner failure next_attempt) now s h =
    left-KeepsNumbers s _ h (fail_held-Leaves i owner failure next_attempt now s)
call_of-KeepsNumbers (fails_held_deletion i owner failure next_attempt) now s h =
    left-KeepsNumbers s _ h (fail_deletion_held-Leaves i owner failure next_attempt now s)
call_of-KeepsNumbers (fails_with_asset job failure next_attempt) now s h =
    left-KeepsNumbers s _ h (fail_with_asset-Leaves job failure next_attempt now s)
call_of-KeepsNumbers (commits job object) now s h = commit-KeepsNumbers job object now s h

-- A call of either part of the store.
pub data Step : Type 0 where
  on_tasks : TaskSystem.Call → Step
  on_media : Call → Step

unfoldable pub apply_step : MediaStore → Step → ℕ → MediaStore
apply_step s (on_tasks call) now = record s { tasks = TaskSystem.apply_call s.tasks call now }
apply_step s (on_media call) now = attempt s (call_of call now s)

unfoldable pub run_steps : MediaStore → List (Step × ℕ) → MediaStore
unfolding apply_step
run_steps s [] = s
run_steps s ((step, now) ∷ steps) = run_steps (apply_step s step now) steps

-- The runs that are created have no events yet.
abbrev pub StartsAtZero : List (Step × ℕ) → Type 0
StartsAtZero [] = Unit {0}
StartsAtZero ((on_tasks call, now) ∷ steps) = (first_number call ≡ 0) × StartsAtZero steps
StartsAtZero ((on_media call, now) ∷ steps) = StartsAtZero steps

attempt-Numbered :
    (s : MediaStore) (x : Result MediaError MediaStore)
    → Numbered s.tasks
    → KeepsNumbers x
    → Numbered (attempt s x).tasks
unfolding KeepsNumbers
attempt-Numbered s (ok s') h k = k
attempt-Numbered s (err e) h k = h

-- Where the events of every run are numbered 1, 2, 3 and so on in the order in which they were
-- written, without a gap, up to the number that the run itself stores, they are so after any sequence
-- of the calls on task runs and their records and of those on media, the completion of a task by its
-- last medium among them, at any times, where runs are created without events.
pub run_steps-Numbered :
    (s : MediaStore) (steps : List (Step × ℕ))
    → Numbered s.tasks
    → StartsAtZero steps
    → Numbered (run_steps s steps).tasks
unfolding run_steps
run_steps-Numbered s [] h z = h
run_steps-Numbered s ((on_tasks call, now) ∷ steps) h z =
    run_steps-Numbered (record s { tasks = TaskSystem.apply_call s.tasks call now }) steps
      (λ id.
        Moves-Numbered id (first_number call) s.tasks _ (apply_call-Moves id s.tasks call now) z.0
          (h id))
      z.1
run_steps-Numbered s ((on_media call, now) ∷ steps) h z =
    run_steps-Numbered (attempt s (call_of call now s)) steps
      (attempt-Numbered s (call_of call now s) h (call_of-KeepsNumbers call now s h)) z
