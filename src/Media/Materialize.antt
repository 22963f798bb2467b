-- ===== src/Media/Materialize.antt =====
-- How the fetching of a medium ends (db/media.go, db/media_materialization_lease.go): its job, object,
-- asset and task change together.
use relay_gateway.Common.Base.{
  ℕ, Bool, false, not, ◌&&◌, Option, none, some, [], ◌==◌, if◌then◌else◌,
}
use relay_gateway.Common.Results.{Result, ok, err, ◌>>=◌}
use relay_gateway.Common.Tables.{first_where, count_where, update_where}
use relay_gateway.Common.Text.{Text, is_empty, trim_space}
use relay_gateway.Tasks.Runs.{is_expired}
use relay_gateway.Media.Rows.{
  job_pending, MediaAsset, MediaObject, MaterializationJob, MediaStore, MediaError, asset_not_found,
  record_not_found, lease_owner_mismatch, is_running, asset_is, found_or,
}
use relay_gateway.Media.Assets.{mark_available, mark_failed, complete_task_run_after_media}
use relay_gateway.Media.Objects.{create_object}
use relay_gateway.Media.Jobs.{
  held_job, update_jobs, succeed_job, fail_materialization_for_lease, job_of, new_job, insert_job,
  start_asset, unfinished_asset,
}

unfoldable pub fail_with_asset_for_lease :
    MaterializationJob → Text → ℕ → ℕ → MediaStore → Result MediaError MediaStore
fail_with_asset_for_lease job failure next_attempt now s =
    fail_materialization_for_lease job.id job.lease_owner failure next_attempt now s
    >>= mark_failed job.asset_id failure now

-- The task of an asset, where it has one; a run that is gone is no error.
abbrev pub ignore_missing : MediaStore → Result MediaError MediaStore → Result MediaError MediaStore
ignore_missing s (ok s') = ok s'
ignore_missing s (err record_not_found) = ok s
ignore_missing s (err e) = err e

abbrev pub complete_task_of : MediaAsset → ℕ → MediaStore → Result MediaError MediaStore
complete_task_of asset now s =
    if is_empty (trim_space asset.task_run_id)
    then ok s
    else ignore_missing s (complete_task_run_after_media asset.task_run_id asset.kind now s)

-- `CommitMediaMaterializationContext`: the job, its object, its asset and its task in one transaction.
unfoldable pub commit_materialization :
    MaterializationJob → MediaObject → ℕ → MediaStore → Result MediaError MediaStore
commit_materialization job object now s =
    update_jobs lease_owner_mismatch (held_job job.id job.lease_owner now) (succeed_job now) s
    >>= create_object object
    >>= mark_available job.asset_id object.id object.content_type object.sha256 object.byte_size now
    >>= (λ s'.
        found_or asset_not_found (first_where (asset_is job.asset_id) s'.assets)
          (λ asset. complete_task_of asset now s'))

-- `RetryMediaAssetMaterializationContext`.
abbrev pub is_fetching : Option MaterializationJob → ℕ → Bool
is_fetching none now = false
is_fetching (some j) now = is_running j.status && not (is_expired j.lease_expires_at now)

abbrev pub reopen_job : ℕ → MaterializationJob → MaterializationJob
reopen_job now j = record j {
  status = job_pending;
  next_attempt_at = none;
  deadline_at = none;
  lease_owner = [];
  lease_expires_at = none;
  last_error = [];
  updated_at = now;
}

unfoldable pub retry_materialization : ℕ → ℕ → MediaStore → Result MediaError MediaStore
retry_materialization asset now s =
    if count_where (unfinished_asset asset) s.assets == 0
    then err asset_not_found
    else if is_fetching (first_where (job_of asset) s.jobs) now
    then ok s
    else let started = record s {
      assets = update_where (unfinished_asset asset) (start_asset now) s.assets;
    } in
      if count_where (job_of asset) s.jobs == 0
      then ok (insert_job (new_job s.next_job asset job_pending [] none 0 now) started)
      else ok (record started { jobs = update_where (job_of asset) (reopen_job now) s.jobs })
