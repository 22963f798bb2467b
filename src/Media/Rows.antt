-- ===== src/Media/Rows.antt =====
-- The tables of media (db/media.go). Statuses and states are the constants that the code writes. Rows
-- stand in the order of their keys, which the database hands out in growing order. A transaction is a
-- function of the store: an error leaves the store as it was.
use relay_gateway.Common.Base.{ℕ, Bool, true, false, Option, none, some, List, ◌==◌}
use relay_gateway.Common.Results.{Result, ok, err}
use relay_gateway.Common.Text.{Text, text_eq}
use relay_gateway.Tasks.RunStore.{TaskStore}

pub data AssetStatus : Type 0 where
  pending materializing available delete_requested delete_failed deleted expired failed :
      AssetStatus

pub data ObjectState : Type 0 where
  staging ready delete_pending deleting object_delete_failed object_deleted : ObjectState

pub data JobStatus : Type 0 where
  job_pending job_running job_succeeded job_failed : JobStatus

pub record MediaAsset : Type 0 where
  pub id : ℕ
  pub public_id : Text
  pub capability_hash : Text
  pub capability_ciphertext : Text
  pub task_run_id : Text
  pub origin_request_id : Text
  pub kind : Text
  pub ordinal : ℕ
  pub status : AssetStatus
  pub object_id : Text
  pub source_kind : Text
  pub source_locator : Text
  pub content_type : Text
  pub byte_size : ℕ
  pub sha256 : Text
  pub display_name : Text
  pub created_at : ℕ
  pub available_at : Option ℕ
  pub expires_at : Option ℕ
  pub delete_requested_at : Option ℕ
  pub deleted_at : Option ℕ
  pub delete_reason : Text
  pub state_version : ℕ
  pub updated_at : ℕ

pub record MediaObject : Type 0 where
  pub id : Text
  pub backend : Text
  pub storage_key : Text
  pub sha256 : Text
  pub byte_size : ℕ
  pub content_type : Text
  pub etag : Text
  pub state : ObjectState
  pub ref_count : ℕ  -- what is not positive is 0
  pub delete_attempts : ℕ
  pub next_retry_at : Option ℕ
  pub last_error : Text
  pub created_at : ℕ
  pub updated_at : ℕ

pub record MaterializationJob : Type 0 where
  pub id : ℕ
  pub asset_id : ℕ
  pub status : JobStatus
  pub lease_owner : Text
  pub lease_expires_at : Option ℕ
  pub attempts : ℕ
  pub next_attempt_at : Option ℕ
  pub deadline_at : Option ℕ
  pub last_error : Text
  pub created_at : ℕ
  pub updated_at : ℕ

pub record DeletionJob : Type 0 where
  pub purge_after_delete : Bool
  pub id : ℕ
  pub asset_id : ℕ
  pub object_id : Text
  pub storage_key : Text
  pub status : JobStatus
  pub lease_owner : Text
  pub lease_expires_at : Option ℕ
  pub attempts : ℕ
  pub next_attempt_at : Option ℕ
  pub last_error : Text
  pub created_at : ℕ
  pub updated_at : ℕ

pub record MediaStore : Type 0 where
  pub assets : List MediaAsset
  pub objects : List MediaObject
  pub jobs : List MaterializationJob
  pub deletions : List DeletionJob
  pub tasks : TaskStore
  pub next_asset : ℕ
  pub next_job : ℕ
  pub next_deletion : ℕ

pub data MediaError : Type 0 where
  asset_not_found asset_gone job_unavailable lease_owner_mismatch : MediaError
  identity_required record_not_found duplicate_key : MediaError

-- `status IN (deleted, delete_requested, delete_failed, expired)`.
abbrev pub is_revoked : AssetStatus → Bool
is_revoked deleted = true
is_revoked delete_requested = true
is_revoked delete_failed = true
is_revoked expired = true
is_revoked _ = false

abbrev pub is_available : AssetStatus → Bool
is_available available = true
is_available _ = false

abbrev pub is_deleted : AssetStatus → Bool
is_deleted deleted = true
is_deleted _ = false

-- `status IN (failed, pending, materializing)`.
abbrev pub is_unfinished : AssetStatus → Bool
is_unfinished failed = true
is_unfinished pending = true
is_unfinished materializing = true
is_unfinished _ = false

abbrev pub is_object_deleted : ObjectState → Bool
is_object_deleted object_deleted = true
is_object_deleted _ = false

abbrev pub is_running : JobStatus → Bool
is_running job_running = true
is_running _ = false

-- `status IN (pending, running, failed)`.
abbrev pub is_open : JobStatus → Bool
is_open job_succeeded = false
is_open _ = true

abbrev pub asset_is : ℕ → MediaAsset → Bool
asset_is id a = a.id == id

abbrev pub object_is : Text → MediaObject → Bool
object_is id o = text_eq o.id id

-- `first` of a look-up, or an error.
abbrev pub found_or {ℓ κ} :
    {A : Type ℓ} {B : Type κ}
    → MediaError
    → Option A
    → (A → Result MediaError B)
    → Result MediaError B
found_or e none f = err e
found_or e (some a) f = f a

-- What is left of a store after a transaction.
abbrev pub attempt : MediaStore → Result MediaError MediaStore → MediaStore
attempt s (ok s') = s'
attempt s (err e) = s
