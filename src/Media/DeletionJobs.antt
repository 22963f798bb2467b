-- ===== src/Media/DeletionJobs.antt =====
-- The deletion jobs (db/media.go, db/media_materialization_lease.go): claims, renewal, and how they end.
use relay_gateway.Common.Base.{
  ℕ, ◌+◌, Bool, ◌&&◌, ◌||◌, Option, none, some, List, [], ◌∷◌, ltb, ◌==◌, if◌then◌else◌,
}
use relay_gateway.Common.Results.{Result, ok, err, ◌>>=◌}
use relay_gateway.Common.Tables.{first_where, count_where, update_where}
use relay_gateway.Common.Text.{Text, is_empty, trim_space}
use relay_gateway.Tasks.Runs.{task_lease_owner}
use relay_gateway.Media.Rows.{
  job_running, job_succeeded, DeletionJob, MediaStore, MediaError, record_not_found,
  job_unavailable, lease_owner_mismatch, identity_required, found_or,
}
use relay_gateway.Media.Deletion.{complete_asset_delete, hard_delete, mark_delete_failed}
use relay_gateway.Media.Jobs.{
  is_due, holds_job, five_minutes, failed_status, time_or_null, due_since,
}

abbrev pub earlier_deletion : DeletionJob → Option DeletionJob → DeletionJob
earlier_deletion j none = j
earlier_deletion j (some k) =
    if ltb (due_since k.next_attempt_at k.created_at) (due_since j.next_attempt_at j.created_at)
    then k
    else j

unfoldable pub first_due_deletion : ℕ → List DeletionJob → Option DeletionJob
first_due_deletion now [] = none
first_due_deletion now (j ∷ js) =
    let rest = first_due_deletion now js in
    if is_due j.status j.next_attempt_at j.lease_expires_at now
    then some (earlier_deletion j rest)
    else rest

abbrev pub claim_deletion_with : Text → ℕ → ℕ → DeletionJob → DeletionJob
claim_deletion_with holder expires now j = record j {
  status = job_running;
  lease_owner = holder;
  lease_expires_at = some expires;
  attempts = j.attempts + 1;
  updated_at = now;
}

unfoldable pub claim_deletion : Text → Text → ℕ → ℕ → MediaStore → Result MediaError MediaStore
claim_deletion token owner lease now s =
    found_or identity_required (task_lease_owner token owner) (λ holder.
      found_or job_unavailable (first_due_deletion now s.deletions) (λ job. ok (record s {
        deletions =
            update_where (λ j. j.id == job.id)
              (claim_deletion_with holder (now + five_minutes lease) now) s.deletions;
      })))

abbrev pub held_deletion : ℕ → Text → ℕ → DeletionJob → Bool
held_deletion id owner now j =
    j.id == id && holds_job j.status j.lease_owner j.lease_expires_at owner now

abbrev pub update_deletions :
    MediaError
    → (DeletionJob → Bool)
    → (DeletionJob → DeletionJob)
    → MediaStore
    → Result MediaError MediaStore
update_deletions e q f s =
    if count_where q s.deletions == 0
    then err e
    else ok (record s { deletions = update_where q f s.deletions })

unfoldable pub renew_deletion : ℕ → Text → ℕ → ℕ → MediaStore → Result MediaError MediaStore
renew_deletion id owner lease now s =
    if lease == 0
    then err lease_owner_mismatch
    else update_deletions lease_owner_mismatch (held_deletion id owner now)
        (λ j. record j { lease_expires_at = some (now + lease) }) s

abbrev pub succeed_deletion : ℕ → DeletionJob → DeletionJob
succeed_deletion now j = record j {
  status = job_succeeded;
  lease_owner = [];
  lease_expires_at = none;
  last_error = [];
  updated_at = now;
}

abbrev pub fail_deletion_job : Text → ℕ → ℕ → DeletionJob → DeletionJob
fail_deletion_job failure next_attempt now j = record j {
  status = failed_status next_attempt;
  lease_owner = [];
  lease_expires_at = none;
  next_attempt_at = time_or_null next_attempt;
  last_error = trim_space failure;
  updated_at = now;
}

unfoldable pub complete_deletion : ℕ → ℕ → MediaStore → Result MediaError MediaStore
complete_deletion id now s =
    update_deletions job_unavailable (λ j. j.id == id) (succeed_deletion now) s

unfoldable pub fail_deletion : ℕ → Text → ℕ → ℕ → MediaStore → Result MediaError MediaStore
fail_deletion id failure next_attempt now s =
    update_deletions job_unavailable (λ j. j.id == id) (fail_deletion_job failure next_attempt now)
      s

-- An asset that is gone is no error.
abbrev pub unless_missing : MediaStore → Result MediaError MediaStore → Result MediaError MediaStore
unless_missing s (ok s') = ok s'
unless_missing s (err record_not_found) = ok s
unless_missing s (err e) = err e

abbrev pub purged_or_kept : MediaStore → Result MediaError (MediaStore × Text × Bool) → MediaStore
purged_or_kept s (ok (s', key, remove)) = s'
purged_or_kept s (err e) = s

-- `hard_delete` fails only where the asset is gone, which is no error here.
unfoldable pub complete_deletion_for_lease :
    ℕ → Text → ℕ → MediaStore → Result MediaError MediaStore
complete_deletion_for_lease id owner now s =
    if id == 0 || is_empty (trim_space owner)
    then err identity_required
    else found_or record_not_found (first_where (λ j. j.id == id) s.deletions) (λ job.
      update_deletions lease_owner_mismatch (held_deletion id (trim_space owner) now)
        (succeed_deletion now) s
      >>= (λ s1. unless_missing s1 (complete_asset_delete job.asset_id now s1))
      >>= (λ s2.
          ok (
            if job.purge_after_delete
            then purged_or_kept s2 (hard_delete job.asset_id s2)
            else s2)))

unfoldable pub fail_deletion_for_lease :
    ℕ → Text → Text → ℕ → ℕ → MediaStore → Result MediaError MediaStore
fail_deletion_for_lease id owner failure next_attempt now s =
    if id == 0 || is_empty (trim_space owner)
    then err identity_required
    else found_or record_not_found (first_where (λ j. j.id == id) s.deletions) (λ job.
      update_deletions lease_owner_mismatch (held_deletion id (trim_space owner) now)
        (fail_deletion_job failure next_attempt now) s
      >>= mark_delete_failed job.asset_id failure (time_or_null next_attempt) now)
