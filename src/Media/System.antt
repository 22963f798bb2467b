-- ===== src/Media/System.antt =====
-- The media store under any sequence of calls (db/media.go, db/media_materialization_lease.go).
use relay_gateway.Common.Base.{ℕ, List, [], ◌∷◌}
use relay_gateway.Common.Results.{Result, ok}
use relay_gateway.Common.Text.{Text}
use relay_gateway.Media.Rows.{
  MediaAsset, MediaObject, MaterializationJob, MediaStore, MediaError, attempt,
}
use relay_gateway.Media.Assets.{
  create_asset, mark_available, mark_failed, complete_task_run_after_media,
}
use relay_gateway.Media.Objects.{create_object, acquire_object_reference, prepare_object_deletion}
use relay_gateway.Media.Deletion.{
  request_delete, hard_delete, complete_asset_delete, mark_delete_failed, retry_deletion,
}
use relay_gateway.Media.Jobs.{
  create_job, create_asset_for_materialization, claim_asset_materialization, claim_materialization,
  renew_materialization, complete_materialization, complete_materialization_for_lease,
  fail_materialization, fail_materialization_for_lease, time_or_null,
}
use relay_gateway.Media.Materialize.{
  fail_with_asset_for_lease, commit_materialization, retry_materialization,
}
use relay_gateway.Media.DeletionJobs.{
  claim_deletion, renew_deletion, complete_deletion, fail_deletion, complete_deletion_for_lease,
  fail_deletion_for_lease, purged_or_kept,
}

pub data Call : Type 0 where
  creates_asset : MediaAsset → Call
  marks_available : ℕ → Text → Text → Text → ℕ → Call
  marks_failed : ℕ → Text → Call
  completes_task : Text → Text → Call
  creates_object : MediaObject → Call
  acquires_reference prepares_deletion : Text → Call
  requests_delete : Text → Text → Call
  hard_deletes completes_delete retries_deletion retries_fetching creates_job : ℕ → Call
  marks_delete_failed : ℕ → Text → ℕ → Call
  creates_for_fetching : MediaAsset → Text → Text → ℕ → Call
  claims_asset : ℕ → Text → Text → ℕ → Call
  claims_job claims_deletion : Text → Text → ℕ → Call
  renews_job renews_deletion : ℕ → Text → ℕ → Call
  completes_job completes_deletion : ℕ → Call
  completes_held_job completes_held_deletion : ℕ → Text → Call
  fails_job fails_deletion : ℕ → Text → ℕ → Call
  fails_held_job fails_held_deletion : ℕ → Text → Text → ℕ → Call
  fails_with_asset : MaterializationJob → Text → ℕ → Call
  commits : MaterializationJob → MediaObject → Call

-- The transaction of a call, at the time at which it runs.
unfoldable pub call_of : Call → ℕ → MediaStore → Result MediaError MediaStore
call_of (creates_asset asset) now s = create_asset asset s
call_of (marks_available id object content_type sha256 size) now s =
    mark_available id object content_type sha256 size now s
call_of (marks_failed id failure) now s = mark_failed id failure now s
call_of (completes_task run kind) now s = complete_task_run_after_media run kind now s
call_of (creates_object object) now s = create_object object s
call_of (acquires_reference id) now s = acquire_object_reference id now s
call_of (prepares_deletion id) now s = ok (prepare_object_deletion id now s).0
call_of (requests_delete public_id reason) now s = request_delete public_id reason now s
call_of (hard_deletes id) now s = ok (purged_or_kept s (hard_delete id s))
call_of (completes_delete id) now s = complete_asset_delete id now s
call_of (retries_deletion id) now s = retry_deletion id now s
call_of (retries_fetching id) now s = retry_materialization id now s
call_of (creates_job asset) now s = create_job asset now s
call_of (marks_delete_failed id failure next_attempt) now s =
    mark_delete_failed id failure (time_or_null next_attempt) now s
call_of (creates_for_fetching asset token owner lease) now s =
    create_asset_for_materialization asset token owner lease now s
call_of (claims_asset asset token owner lease) now s =
    claim_asset_materialization asset token owner lease now s
call_of (claims_job token owner lease) now s = claim_materialization token owner lease now s
call_of (claims_deletion token owner lease) now s = claim_deletion token owner lease now s
call_of (renews_job id owner lease) now s = renew_materialization id owner lease now s
call_of (renews_deletion id owner lease) now s = renew_deletion id owner lease now s
call_of (completes_job id) now s = complete_materialization id now s
call_of (completes_deletion id) now s = complete_deletion id now s
call_of (completes_held_job id owner) now s = complete_materialization_for_lease id owner now s
call_of (completes_held_deletion id owner) now s = complete_deletion_for_lease id owner now s
call_of (fails_job id failure next_attempt) now s =
    fail_materialization id failure next_attempt now s
call_of (fails_deletion id failure next_attempt) now s = fail_deletion id failure next_attempt now s
call_of (fails_held_job id owner failure next_attempt) now s =
    fail_materialization_for_lease id owner failure next_attempt now s
call_of (fails_held_deletion id owner failure next_attempt) now s =
    fail_deletion_for_lease id owner failure next_attempt now s
call_of (fails_with_asset job failure next_attempt) now s =
    fail_with_asset_for_lease job failure next_attempt now s
call_of (commits job object) now s = commit_materialization job object now s

unfoldable pub run_calls : MediaStore → List (Call × ℕ) → MediaStore
run_calls s [] = s
run_calls s ((call, now) ∷ calls) = run_calls (attempt s (call_of call now s)) calls
