-- ===== src/Media/Jobs.antt =====
-- The jobs that fetch and remove media (db/media.go, db/media_materialization_lease.go): claims under a
-- lease, renewal, and how a job ends. The random part of an owner's name is an argument; a duration that
-- is not positive is 0, and so is a time that is not set.
use relay_gateway.Common.Base.{
  ℕ, ◌+◌, Bool, not, ◌&&◌, ◌||◌, Option, none, some, List, [], ◌∷◌, ◌++◌, ltb, ◌==◌, if◌then◌else◌,
}
use relay_gateway.Common.Results.{Result, ok, err, ◌>>=◌}
use relay_gateway.Common.Tables.{first_where, count_where, update_where}
use relay_gateway.Common.Text.{Text, text_eq, is_empty, trim_space}
use relay_gateway.Tasks.Runs.{is_expired, task_lease_owner}
use relay_gateway.Media.Rows.{
  materializing, JobStatus, job_pending, job_running, job_succeeded, job_failed, MediaAsset,
  MaterializationJob, MediaStore, MediaError, job_unavailable, lease_owner_mismatch,
  identity_required, is_unfinished, is_running, is_open, asset_is, found_or,
}
use relay_gateway.Media.Assets.{create_asset}

-- `next_attempt_at IS NULL OR next_attempt_at <= now`, and a lease that has ended.
abbrev pub is_due : JobStatus → Option ℕ → Option ℕ → ℕ → Bool
is_due status next_attempt expires now =
    is_open status && (is_expired next_attempt now && is_expired expires now)

-- `status = running AND lease_owner = ? AND lease_expires_at > now`.
abbrev pub holds_job : JobStatus → Text → Option ℕ → Text → ℕ → Bool
holds_job status holder expires owner now =
    is_running status && (text_eq holder owner && not (is_expired expires now))

abbrev pub five_minutes : ℕ → ℕ
five_minutes lease = if lease == 0 then 300000000000 else lease

-- The status and the next attempt of a job that failed.
abbrev pub failed_status : ℕ → JobStatus
failed_status next_attempt = if next_attempt == 0 then job_failed else job_pending

abbrev pub time_or_null : ℕ → Option ℕ
time_or_null t = if t == 0 then none else some t

abbrev pub job_of : ℕ → MaterializationJob → Bool
job_of asset j = j.asset_id == asset

abbrev pub new_job : ℕ → ℕ → JobStatus → Text → Option ℕ → ℕ → ℕ → MaterializationJob
new_job id asset status owner expires attempts now = record {
  id = id;
  asset_id = asset;
  status = status;
  lease_owner = owner;
  lease_expires_at = expires;
  attempts = attempts;
  next_attempt_at = none;
  deadline_at = none;
  last_error = [];
  created_at = now;
  updated_at = now;
}

abbrev pub insert_job : MaterializationJob → MediaStore → MediaStore
insert_job job s = record s { jobs = s.jobs ++ job ∷ []; next_job = s.next_job + 1 }

-- `CreateMediaMaterializationJobContext`: the first job of an asset, or a new one.
unfoldable pub create_job : ℕ → ℕ → MediaStore → Result MediaError MediaStore
create_job asset now s =
    if asset == 0
    then err identity_required
    else if ltb 0 (count_where (job_of asset) s.jobs)
    then ok s
    else ok (insert_job (new_job s.next_job asset job_pending [] none 0 now) s)

abbrev pub start_asset : ℕ → MediaAsset → MediaAsset
start_asset now a = record a {
  status = materializing;
  state_version = a.state_version + 1;
  updated_at = now;
}

-- The new asset and its job, already claimed. The asset is the last one, with the key before the next.
unfoldable pub create_asset_for_materialization :
    MediaAsset → Text → Text → ℕ → ℕ → MediaStore → Result MediaError MediaStore
create_asset_for_materialization asset token owner lease now s =
    found_or identity_required (task_lease_owner token owner) (λ holder.
      create_asset asset s >>= (λ s'. ok (
        insert_job
          (new_job s'.next_job s.next_asset job_running holder (some (now + five_minutes lease)) 1
            now)
          (record s' {
            assets = update_where (asset_is s.next_asset) (start_asset now) s'.assets;
          }))))

abbrev pub claim_with : Text → ℕ → ℕ → MaterializationJob → MaterializationJob
claim_with holder expires now j = record j {
  status = job_running;
  lease_owner = holder;
  lease_expires_at = some expires;
  attempts = j.attempts + 1;
  updated_at = now;
}

abbrev pub unfinished_asset : ℕ → MediaAsset → Bool
unfinished_asset id a = asset_is id a && is_unfinished a.status

unfoldable pub claim_asset_materialization :
    ℕ → Text → Text → ℕ → ℕ → MediaStore → Result MediaError MediaStore
claim_asset_materialization asset token owner lease now s =
    found_or identity_required (task_lease_owner token owner) (λ holder.
      found_or job_unavailable (first_where (job_of asset) s.jobs) (λ job.
        if is_due job.status job.next_attempt_at job.lease_expires_at now
          && ltb 0 (count_where (unfinished_asset asset) s.assets)
        then ok (record s {
          jobs =
              update_where (λ j. j.id == job.id) (claim_with holder (now + five_minutes lease) now)
                s.jobs;
          assets = update_where (asset_is asset) (start_asset now) s.assets;
        })
        else err job_unavailable))

-- `COALESCE(next_attempt_at, created_at)`, then the key: the rows stand in the order of the key, so an
-- earlier row wins a tie.
abbrev pub due_since : Option ℕ → ℕ → ℕ
due_since none created = created
due_since (some t) created = t

abbrev pub earlier_job : MaterializationJob → Option MaterializationJob → MaterializationJob
earlier_job j none = j
earlier_job j (some k) =
    if ltb (due_since k.next_attempt_at k.created_at) (due_since j.next_attempt_at j.created_at)
    then k
    else j

unfoldable pub first_due_job : ℕ → List MaterializationJob → Option MaterializationJob
first_due_job now [] = none
first_due_job now (j ∷ js) =
    let rest = first_due_job now js in
    if is_due j.status j.next_attempt_at j.lease_expires_at now
    then some (earlier_job j rest)
    else rest

unfoldable pub claim_materialization :
    Text → Text → ℕ → ℕ → MediaStore → Result MediaError MediaStore
claim_materialization token owner lease now s =
    found_or identity_required (task_lease_owner token owner) (λ holder.
      found_or job_unavailable (first_due_job now s.jobs) (λ job. ok (record s {
        jobs =
            update_where (λ j. j.id == job.id) (claim_with holder (now + five_minutes lease) now)
              s.jobs;
      })))

abbrev pub held_job : ℕ → Text → ℕ → MaterializationJob → Bool
held_job id owner now j =
    j.id == id && holds_job j.status j.lease_owner j.lease_expires_at owner now

-- An update of the jobs that a condition selects, which must be one at least.
abbrev pub update_jobs :
    MediaError
    → (MaterializationJob → Bool)
    → (MaterializationJob → MaterializationJob)
    → MediaStore
    → Result MediaError MediaStore
update_jobs e q f s =
    if count_where q s.jobs == 0 then err e else ok (record s { jobs = update_where q f s.jobs })

unfoldable pub renew_materialization : ℕ → Text → ℕ → ℕ → MediaStore → Result MediaError MediaStore
renew_materialization id owner lease now s =
    if lease == 0
    then err lease_owner_mismatch
    else update_jobs lease_owner_mismatch (held_job id owner now)
        (λ j. record j { lease_expires_at = some (now + lease) }) s

abbrev pub succeed_job : ℕ → MaterializationJob → MaterializationJob
succeed_job now j = record j {
  status = job_succeeded;
  lease_owner = [];
  lease_expires_at = none;
  last_error = [];
  updated_at = now;
}

abbrev pub fail_job : Text → ℕ → ℕ → MaterializationJob → MaterializationJob
fail_job failure next_attempt now j = record j {
  status = failed_status next_attempt;
  lease_owner = [];
  lease_expires_at = none;
  next_attempt_at = time_or_null next_attempt;
  last_error = trim_space failure;
  updated_at = now;
}

unfoldable pub complete_materialization : ℕ → ℕ → MediaStore → Result MediaError MediaStore
complete_materialization id now s =
    update_jobs job_unavailable (λ j. j.id == id) (succeed_job now) s

unfoldable pub complete_materialization_for_lease :
    ℕ → Text → ℕ → MediaStore → Result MediaError MediaStore
complete_materialization_for_lease id owner now s =
    if id == 0 || is_empty (trim_space owner)
    then err identity_required
    else update_jobs lease_owner_mismatch (held_job id (trim_space owner) now) (succeed_job now) s

unfoldable pub fail_materialization : ℕ → Text → ℕ → ℕ → MediaStore → Result MediaError MediaStore
fail_materialization id failure next_attempt now s =
    update_jobs job_unavailable (λ j. j.id == id) (fail_job failure next_attempt now) s

unfoldable pub fail_materialization_for_lease :
    ℕ → Text → Text → ℕ → ℕ → MediaStore → Result MediaError MediaStore
fail_materialization_for_lease id owner failure next_attempt now s =
    if id == 0 || is_empty (trim_space owner)
    then err identity_required
    else update_jobs lease_owner_mismatch (held_job id (trim_space owner) now)
        (fail_job failure next_attempt now) s
