-- ===== src/Media/Untouched.antt =====
-- The calls on media that leave the task runs as they are (db/media.go,
-- db/media_materialization_lease.go).
use relay_gateway.Common.Base.{ℕ, ◌≡◌, Option, arith}
use relay_gateway.Common.Results.{Result, ok, err}
use relay_gateway.Common.Text.{Text}
use relay_gateway.Media.Rows.{MediaAsset, MediaObject, MaterializationJob, MediaStore, MediaError}
use relay_gateway.Media.Assets.{create_asset, mark_available, mark_failed}
use relay_gateway.Media.Objects.{create_object, acquire_object_reference}
use relay_gateway.Media.Deletion.{
  request_delete, hard_delete, complete_asset_delete, mark_delete_failed, retry_deletion,
}
use relay_gateway.Media.Jobs.{
  create_job, create_asset_for_materialization, claim_asset_materialization, claim_materialization,
  renew_materialization, complete_materialization_for_lease, fail_materialization_for_lease,
}
use relay_gateway.Media.Materialize.{fail_with_asset_for_lease, retry_materialization}
use relay_gateway.Media.DeletionJobs.{
  claim_deletion, renew_deletion, complete_deletion_for_lease, fail_deletion_for_lease,
  purged_or_kept,
}

-- A transaction that leaves the tasks as they are.
abbrev pub Leaves : MediaStore → Result MediaError MediaStore → Type 0
Leaves s (ok s') = s'.tasks ≡ s.tasks
Leaves s (err e) = Unit {0}

pub create_asset-Leaves : (asset : MediaAsset) (s : MediaStore) → Leaves s (create_asset asset s)
unfolding create_asset
create_asset-Leaves asset s = ground arith

pub mark_available-Leaves :
    (id : ℕ) (object content_type sha256 : Text) (size now : ℕ) (s : MediaStore)
    → Leaves s (mark_available id object content_type sha256 size now s)
unfolding mark_available
mark_available-Leaves id object content_type sha256 size now s = ground arith

pub mark_failed-Leaves :
    (id : ℕ) (failure : Text) (now : ℕ) (s : MediaStore) → Leaves s (mark_failed id failure now s)
unfolding mark_failed
mark_failed-Leaves id failure now s = ground arith

pub create_object-Leaves :
    (object : MediaObject) (s : MediaStore) → Leaves s (create_object object s)
unfolding create_object
create_object-Leaves object s = ground arith

pub acquire-Leaves :
    (id : Text) (now : ℕ) (s : MediaStore) → Leaves s (acquire_object_reference id now s)
unfolding acquire_object_reference
acquire-Leaves id now s = ground arith

pub request_delete-Leaves :
    (public_id reason : Text) (now : ℕ) (s : MediaStore)
    → Leaves s (request_delete public_id reason now s)
unfolding request_delete
request_delete-Leaves public_id reason now s = ground arith

pub hard_delete-same :
    (id : ℕ) (s : MediaStore) → (purged_or_kept s (hard_delete id s)).tasks ≡ s.tasks
unfolding hard_delete
hard_delete-same id s = ground arith

pub complete_asset_delete-Leaves :
    (id now : ℕ) (s : MediaStore) → Leaves s (complete_asset_delete id now s)
unfolding complete_asset_delete
complete_asset_delete-Leaves id now s = ground arith

pub mark_delete_failed-Leaves :
    (id : ℕ) (failure : Text) (next_attempt : Option ℕ) (now : ℕ) (s : MediaStore)
    → Leaves s (mark_delete_failed id failure next_attempt now s)
unfolding mark_delete_failed
mark_delete_failed-Leaves id failure next_attempt now s = ground arith

pub retry_deletion-Leaves : (id now : ℕ) (s : MediaStore) → Leaves s (retry_deletion id now s)
unfolding retry_deletion
retry_deletion-Leaves id now s = ground arith

pub retry_materialization-Leaves :
    (asset now : ℕ) (s : MediaStore) → Leaves s (retry_materialization asset now s)
unfolding retry_materialization
retry_materialization-Leaves asset now s = ground arith

pub create_job-Leaves : (asset now : ℕ) (s : MediaStore) → Leaves s (create_job asset now s)
unfolding create_job
create_job-Leaves asset now s = ground arith

pub create_for-Leaves :
    (asset : MediaAsset) (token owner : Text) (lease now : ℕ) (s : MediaStore)
    → Leaves s (create_asset_for_materialization asset token owner lease now s)
unfolding create_asset_for_materialization create_asset
create_for-Leaves asset token owner lease now s = ground arith

pub claim_asset-Leaves :
    (asset : ℕ) (token owner : Text) (lease now : ℕ) (s : MediaStore)
    → Leaves s (claim_asset_materialization asset token owner lease now s)
unfolding claim_asset_materialization
claim_asset-Leaves asset token owner lease now s = ground arith

pub claim_job-Leaves :
    (token owner : Text) (lease now : ℕ) (s : MediaStore)
    → Leaves s (claim_materialization token owner lease now s)
unfolding claim_materialization
claim_job-Leaves token owner lease now s = ground arith

pub claim_deletion-Leaves :
    (token owner : Text) (lease now : ℕ) (s : MediaStore)
    → Leaves s (claim_deletion token owner lease now s)
unfolding claim_deletion
claim_deletion-Leaves token owner lease now s = ground arith

pub renew_job-Leaves :
    (id : ℕ) (owner : Text) (lease now : ℕ) (s : MediaStore)
    → Leaves s (renew_materialization id owner lease now s)
unfolding renew_materialization
renew_job-Leaves id owner lease now s = ground arith

pub renew_deletion-Leaves :
    (id : ℕ) (owner : Text) (lease now : ℕ) (s : MediaStore)
    → Leaves s (renew_deletion id owner lease now s)
unfolding renew_deletion
renew_deletion-Leaves id owner lease now s = ground arith

pub complete_held-Leaves :
    (id : ℕ) (owner : Text) (now : ℕ) (s : MediaStore)
    → Leaves s (complete_materialization_for_lease id owner now s)
unfolding complete_materialization_for_lease
complete_held-Leaves id owner now s = ground arith

pub fail_held-Leaves :
    (id : ℕ) (owner failure : Text) (next_attempt now : ℕ) (s : MediaStore)
    → Leaves s (fail_materialization_for_lease id owner failure next_attempt now s)
unfolding fail_materialization_for_lease
fail_held-Leaves id owner failure next_attempt now s = ground arith

pub fail_with_asset-Leaves :
    (job : MaterializationJob) (failure : Text) (next_attempt now : ℕ) (s : MediaStore)
    → Leaves s (fail_with_asset_for_lease job failure next_attempt now s)
unfolding fail_with_asset_for_lease fail_materialization_for_lease mark_failed
fail_with_asset-Leaves job failure next_attempt now s = ground arith

pub fail_deletion_held-Leaves :
    (id : ℕ) (owner failure : Text) (next_attempt now : ℕ) (s : MediaStore)
    → Leaves s (fail_deletion_for_lease id owner failure next_attempt now s)
unfolding fail_deletion_for_lease mark_delete_failed
fail_deletion_held-Leaves id owner failure next_attempt now s = ground arith

pub complete_deletion_held-Leaves :
    (id : ℕ) (owner : Text) (now : ℕ) (s : MediaStore)
    → Leaves s (complete_deletion_for_lease id owner now s)
unfolding complete_deletion_for_lease complete_asset_delete hard_delete
complete_deletion_held-Leaves id owner now s = ground arith
