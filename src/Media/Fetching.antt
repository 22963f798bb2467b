-- ===== src/Media/Fetching.antt =====
-- The calls that fetch media leave a revoked asset revoked (db/media.go,
-- db/media_materialization_lease.go).
use relay_gateway.Common.Base.{
  ℕ, ◌+◌, ◌<◌, ◌≡◌, refl, inl, inr, Bool, true, false, ◌&&◌, ◌||◌, List, ltb, ◌==◌, if◌then◌else◌,
  arith, Bool-cases,
}
use relay_gateway.Common.Results.{Result, ok, err}
use relay_gateway.Common.Tables.{first_where, count_where, update_where}
use relay_gateway.Common.Text.{Text, is_empty, trim_space}
use relay_gateway.Tasks.Runs.{task_lease_owner}
use relay_gateway.Media.Rows.{
  MediaAsset, MediaObject, MaterializationJob, MediaStore, MediaError, lease_owner_mismatch,
  job_unavailable, record_not_found, asset_is,
}
use relay_gateway.Media.Assets.{create_asset, live_asset}
use relay_gateway.Media.Closed.{
  Shut, Closed, Keeps, committed-Keeps, refused-Keeps, either-Keeps, found_or-Keeps, then-Keeps,
  updated-Shut, count_where-implies,
}
use relay_gateway.Media.Objects.{create_object, object_collides}
use relay_gateway.Media.Jobs.{
  is_due, claim_with, create_job, job_of, start_asset, five_minutes,
  create_asset_for_materialization, unfinished_asset, claim_asset_materialization, first_due_job,
  claim_materialization, held_job, update_jobs, renew_materialization, succeed_job,
  complete_materialization_for_lease, fail_materialization_for_lease,
}
use relay_gateway.Media.Materialize.{
  fail_with_asset_for_lease, ignore_missing, commit_materialization, is_fetching,
  retry_materialization,
}
use relay_gateway.Media.Storing.{
  create_asset-Keeps, mark_available-Keeps, mark_failed-Keeps, complete_task-Keeps,
}

pub update_jobs-Keeps :
    (id : ℕ) (e : MediaError) (q : MaterializationJob → Bool)
    (f : MaterializationJob → MaterializationJob) (s : MediaStore)
    → Closed id s
    → Keeps id (update_jobs e q f s)
update_jobs-Keeps id e q f s c =
    refused-Keeps id (count_where q s.jobs == 0) _ _ (committed-Keeps id _ c)

pub create_job-Keeps :
    (id asset now : ℕ) (s : MediaStore) → Closed id s → Keeps id (create_job asset now s)
unfolding create_job
create_job-Keeps id asset now s c = refused-Keeps id (asset == 0) _ _ (
    either-Keeps id (ltb 0 (count_where (job_of asset) s.jobs)) _ _ (committed-Keeps id s c)
      (committed-Keeps id _ c))

-- The new asset has another id.
started_new :
    (id next now : ℕ) (assets : List MediaAsset)
    → id < next
    → (a : MediaAsset) → asset_is next a ≡ true
    → live_asset id (start_asset now a) ≡ true
    → live_asset id a ≡ true
started_new id next now assets p a q l = ground (arith, p, q, l)

pub create_asset_for_materialization-Keeps :
    (id : ℕ) (asset : MediaAsset) (token owner : Text) (lease now : ℕ) (s : MediaStore)
    → Closed id s
    → Keeps id (create_asset_for_materialization asset token owner lease now s)
unfolding create_asset_for_materialization
create_asset_for_materialization-Keeps id asset token owner lease now s c =
    found_or-Keeps id _ (task_lease_owner token owner) _ (λ holder _.
      then-Keeps id (create_asset asset s) _ (create_asset-Keeps id asset s c) (λ s' c'.
        committed-Keeps id _ (
          updated-Shut id s'.next_asset (asset_is s.next_asset) (start_asset now) s'.assets
            (started_new id s.next_asset now s'.assets c.past) c')))

-- An asset that may be claimed is not closed.
claimable_other :
    (id asset now : ℕ) (s : MediaStore)
    → Closed id s
    → ltb 0 (count_where (unfinished_asset asset) s.assets) ≡ true
    → (a : MediaAsset) → asset_is asset a ≡ true
    → live_asset id (start_asset now a) ≡ true
    → live_asset id a ≡ true
claimable_other id asset now s c h a q l = elim (Bool-cases (asset == id)) [
  | inr e ↦ ground (arith, e, q, l)
  | inl e ↦
      let few =
        count_where-implies (live_asset id) (unfinished_asset asset) s.assets
          (λ r u. ground (arith, u, e)) in
      let zero_live = c.none_live in ground (arith, few, zero_live, h)
]

pub claim_asset-Keeps :
    (id asset : ℕ) (token owner : Text) (lease now : ℕ) (s : MediaStore)
    → Closed id s
    → Keeps id (claim_asset_materialization asset token owner lease now s)
unfolding claim_asset_materialization
claim_asset-Keeps id asset token owner lease now s c =
    found_or-Keeps id _ (task_lease_owner token owner) _ (λ holder _.
      found_or-Keeps id _ (first_where (job_of asset) s.jobs) _ (λ job _.
        claimed holder job (is_due job.status job.next_attempt_at job.lease_expires_at now)
          (ltb 0 (count_where (unfinished_asset asset) s.assets)) refl))
  where
    nothing : (e : MediaError) → Keeps id (err e)
    nothing e = refused-Keeps id true _ _ (committed-Keeps id s c)

    claimed :
        (holder : Text) (job : MaterializationJob) (due open_ : Bool)
        → ltb 0 (count_where (unfinished_asset asset) s.assets) ≡ open_
        → Keeps id (
            if due && open_
            then ok (record s {
              jobs =
                  update_where
                    (λ j. j.id == job.id)
                    (claim_with holder (now + five_minutes lease) now)
                    s.jobs;
              assets = update_where (asset_is asset) (start_asset now) s.assets;
            })
            else err job_unavailable)
    claimed holder job false open_ h = nothing _
    claimed holder job true false h = nothing _
    claimed holder job true true h = committed-Keeps id _ (
        updated-Shut id s.next_asset (asset_is asset) (start_asset now) s.assets
          (claimable_other id asset now s c h) c)

pub claim_materialization-Keeps :
    (id : ℕ) (token owner : Text) (lease now : ℕ) (s : MediaStore)
    → Closed id s
    → Keeps id (claim_materialization token owner lease now s)
unfolding claim_materialization
claim_materialization-Keeps id token owner lease now s c =
    found_or-Keeps id _ (task_lease_owner token owner) _ (λ holder _.
      found_or-Keeps id _ (first_due_job now s.jobs) _ (λ job _. committed-Keeps id _ c))

pub renew_materialization-Keeps :
    (id i : ℕ) (owner : Text) (lease now : ℕ) (s : MediaStore)
    → Closed id s
    → Keeps id (renew_materialization i owner lease now s)
unfolding renew_materialization
renew_materialization-Keeps id i owner lease now s c =
    refused-Keeps id (lease == 0) _ _ (update_jobs-Keeps id _ (held_job i owner now) _ s c)

pub complete_for_lease-Keeps :
    (id i : ℕ) (owner : Text) (now : ℕ) (s : MediaStore)
    → Closed id s
    → Keeps id (complete_materialization_for_lease i owner now s)
unfolding complete_materialization_for_lease
complete_for_lease-Keeps id i owner now s c =
    refused-Keeps id (i == 0 || is_empty (trim_space owner)) _ _
      (update_jobs-Keeps id _ (held_job i (trim_space owner) now) _ s c)

pub fail_for_lease-Keeps :
    (id i : ℕ) (owner failure : Text) (next_attempt now : ℕ) (s : MediaStore)
    → Closed id s
    → Keeps id (fail_materialization_for_lease i owner failure next_attempt now s)
unfolding fail_materialization_for_lease
fail_for_lease-Keeps id i owner failure next_attempt now s c =
    refused-Keeps id (i == 0 || is_empty (trim_space owner)) _ _
      (update_jobs-Keeps id _ (held_job i (trim_space owner) now) _ s c)

pub fail_with_asset-Keeps :
    (id : ℕ) (job : MaterializationJob) (failure : Text) (next_attempt now : ℕ) (s : MediaStore)
    → Closed id s
    → Keeps id (fail_with_asset_for_lease job failure next_attempt now s)
unfolding fail_with_asset_for_lease
fail_with_asset-Keeps id job failure next_attempt now s c =
    then-Keeps id _ _ (fail_for_lease-Keeps id job.id job.lease_owner failure next_attempt now s c)
      (mark_failed-Keeps id job.asset_id failure now)

pub create_object-Keeps :
    (id : ℕ) (object : MediaObject) (s : MediaStore)
    → Closed id s
    → Keeps id (create_object object s)
unfolding create_object
create_object-Keeps id object s c =
    refused-Keeps id (is_empty (trim_space object.id) || is_empty (trim_space object.storage_key)) _
      _
      (refused-Keeps id (ltb 0 (count_where (object_collides object) s.objects)) _ _
        (committed-Keeps id _ c))

ignore_missing-Keeps :
    (id : ℕ) (s : MediaStore) (x : Result MediaError MediaStore)
    → Closed id s
    → Keeps id x
    → Keeps id (ignore_missing s x)
unfolding Keeps
ignore_missing-Keeps id s (ok s') c k = k
ignore_missing-Keeps id s (err record_not_found) c k = c
ignore_missing-Keeps id s (err _) c k = tt

pub commit-Keeps :
    (id : ℕ) (job : MaterializationJob) (object : MediaObject) (now : ℕ) (s : MediaStore)
    → Closed id s
    → Keeps id (commit_materialization job object now s)
unfolding commit_materialization
commit-Keeps id job object now s c =
    then-Keeps id _ _
      (then-Keeps id _ _
        (then-Keeps id
          (update_jobs lease_owner_mismatch (held_job job.id job.lease_owner now) (succeed_job now)
            s)
          _ (update_jobs-Keeps id _ (held_job job.id job.lease_owner now) _ s c)
          (create_object-Keeps id object))
        (mark_available-Keeps id job.asset_id object.id object.content_type object.sha256
          object.byte_size now))
      (λ s' c'. found_or-Keeps id _ (first_where (asset_is job.asset_id) s'.assets) _ (λ asset _.
        either-Keeps id (is_empty (trim_space asset.task_run_id)) _ _ (committed-Keeps id s' c') (
          ignore_missing-Keeps id s' _ c'
            (complete_task-Keeps id asset.task_run_id asset.kind now s' c'))))

pub retry_materialization-Keeps :
    (id asset now : ℕ) (s : MediaStore) → Closed id s → Keeps id (retry_materialization asset now s)
unfolding retry_materialization
retry_materialization-Keeps id asset now s c =
    let shut : Shut id s.next_asset
        (update_where (unfinished_asset asset) (start_asset now) s.assets) =
      updated-Shut id s.next_asset (unfinished_asset asset) (start_asset now) s.assets
        (λ a q l. ground (arith, q, l)) c in
    refused-Keeps id (count_where (unfinished_asset asset) s.assets == 0) _ _ (
      either-Keeps id (is_fetching (first_where (job_of asset) s.jobs) now) _ _
        (committed-Keeps id s c)
        (either-Keeps id (count_where (job_of asset) s.jobs == 0) _ _ (committed-Keeps id _ shut)
          (committed-Keeps id _ shut)))
