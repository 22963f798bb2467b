-- ===== src/Media/Deletion.antt =====
-- The deletion of assets (db/media.go): revocation, physical removal, and the jobs that carry it out.
use relay_gateway.Common.Base.{
  ℕ, ◌+◌, ◌-◌, Bool, true, false, not, ◌&&◌, Option, none, some, List, [], ◌∷◌, ◌++◌, ltb, ◌==◌,
  if◌then◌else◌,
}
use relay_gateway.Common.Results.{Result, ok, err}
use relay_gateway.Common.Tables.{first_where, count_where, update_where, delete_where}
use relay_gateway.Common.Text.{Text, text_eq, is_empty, trim_space}
use relay_gateway.Tasks.Runs.{is_expired}
use relay_gateway.Media.Rows.{
  AssetStatus, delete_requested, delete_failed, deleted, ready, delete_pending,
  object_delete_failed, object_deleted, job_pending, MediaAsset, MediaObject, DeletionJob,
  MediaStore, MediaError, asset_not_found, record_not_found, is_revoked, is_deleted,
  is_object_deleted, is_running, asset_is, object_is, found_or,
}
use relay_gateway.Media.Assets.{has_public_id}

abbrev pub same_asset : ℕ → DeletionJob → Bool
same_asset id j = j.asset_id == id

-- `FirstOrCreate` by the asset.
abbrev pub first_or_create : MediaAsset → Text → ℕ → MediaStore → MediaStore
first_or_create asset storage_key now s =
    if ltb 0 (count_where (same_asset asset.id) s.deletions) then s else record s {
      next_deletion = s.next_deletion + 1;
      deletions =
          s.deletions
          ++ record {
            purge_after_delete = false;
            id = s.next_deletion;
            asset_id = asset.id;
            object_id = asset.object_id;
            storage_key = storage_key;
            status = job_pending;
            lease_owner = [];
            lease_expires_at = none;
            attempts = 0;
            next_attempt_at = none;
            last_error = [];
            created_at = now;
            updated_at = now;
          }
            ∷ [];
    }

-- The look-up of an asset's object; an asset without an object has none.
abbrev pub object_of : MediaAsset → List MediaObject → Option MediaObject
object_of asset objects =
    if is_empty asset.object_id then none else first_where (object_is asset.object_id) objects

abbrev pub key_of : Option MediaObject → Text
key_of none = []
key_of (some o) = o.storage_key

-- One live reference less.
abbrev pub drop_reference : ℕ → MediaObject → MediaObject
drop_reference now o = record o {
  ref_count = o.ref_count - 1;
  state = if ltb 1 o.ref_count then ready else delete_pending;
  next_retry_at = none;
  last_error = [];
  updated_at = now;
}

abbrev pub release_object : ℕ → Option MediaObject → List MediaObject → List MediaObject
release_object now none objects = objects
release_object now (some o) objects =
    if not (is_object_deleted o.state) && ltb 0 o.ref_count
    then update_where (object_is o.id) (drop_reference now) objects
    else objects

abbrev pub revoke_asset : Text → ℕ → MediaAsset → MediaAsset
revoke_asset reason now a = record a {
  status = delete_requested;
  delete_requested_at = some now;
  delete_reason = trim_space reason;
  state_version = a.state_version + 1;
  updated_at = now;
}

abbrev pub revoke : MediaAsset → Text → ℕ → MediaStore → MediaStore
revoke asset reason now s = if is_revoked asset.status then s else record s {
  assets = update_where (asset_is asset.id) (revoke_asset reason now) s.assets;
  objects = release_object now (object_of asset s.objects) s.objects;
}

unfoldable pub request_delete : Text → Text → ℕ → MediaStore → Result MediaError MediaStore
request_delete public_id reason now s =
    if is_empty (trim_space public_id)
    then err asset_not_found
    else found_or asset_not_found (first_where (has_public_id (trim_space public_id)) s.assets)
        (λ asset.
          if is_deleted asset.status
          then ok s
          else ok (
              first_or_create asset (key_of (object_of asset s.objects)) now
                (revoke asset reason now s)))

-- Another row with the object, whether revoked or not.
abbrev pub shares : MediaAsset → MediaAsset → Bool
shares asset a = text_eq a.object_id asset.object_id && not (asset_is asset.id a)

abbrev pub is_shared : MediaAsset → MediaStore → Bool
is_shared asset s = ltb 0 (count_where (shares asset) s.assets)

abbrev pub purge_object : MediaAsset → Option MediaObject → MediaStore → List MediaObject
purge_object asset none s = s.objects
purge_object asset (some o) s =
    if not (is_shared asset s)
    then delete_where (object_is asset.object_id) s.objects
    else if not (is_revoked asset.status)
    then update_where (object_is o.id) (λ x. record x { ref_count = x.ref_count - 1 }) s.objects
    else s.objects

abbrev pub purge : MediaAsset → MediaStore → MediaStore
purge asset s = record s {
  objects = purge_object asset (object_of asset s.objects) s;
  deletions = delete_where (same_asset asset.id) s.deletions;
  jobs = delete_where (λ j. j.asset_id == asset.id) s.jobs;
  assets = delete_where (asset_is asset.id) s.assets;
}

-- What the caller removes from the disk: the storage key, and whether nothing shares it.
abbrev pub to_remove : MediaAsset → Option MediaObject → MediaStore → Text × Bool
to_remove asset none s = ([], false)
to_remove asset (some o) s = (trim_space o.storage_key, not (is_shared asset s))

unfoldable pub hard_delete : ℕ → MediaStore → Result MediaError (MediaStore × Text × Bool)
hard_delete id s = found_or asset_not_found (first_where (asset_is id) s.assets) (λ asset.
    let (key, remove) = to_remove asset (object_of asset s.objects) s in
    ok (purge asset s, key, remove))

abbrev pub settle_object : ℕ → MediaObject → MediaObject
settle_object now o = record o {
  next_retry_at = none;
  last_error = [];
  updated_at = now;
  state = if ltb 0 o.ref_count then ready else object_deleted;
}

unfoldable pub complete_asset_delete : ℕ → ℕ → MediaStore → Result MediaError MediaStore
complete_asset_delete id now s =
    found_or record_not_found (first_where (asset_is id) s.assets) (λ asset.
      if is_deleted asset.status
      then ok s
      else ok (record s {
        objects =
            if is_empty asset.object_id
            then s.objects
            else update_where (object_is asset.object_id) (settle_object now) s.objects;
        assets =
            update_where (asset_is asset.id)
              (λ a. record a {
                status = deleted;
                deleted_at = some now;
                state_version = a.state_version + 1;
                updated_at = now;
              })
              s.assets;
      }))

abbrev pub fail_object : Text → Option ℕ → ℕ → MediaObject → MediaObject
fail_object failure next_attempt now o = record o {
  state = object_delete_failed;
  delete_attempts = o.delete_attempts + 1;
  next_retry_at = next_attempt;
  last_error = trim_space failure;
  updated_at = now;
}

unfoldable pub mark_delete_failed :
    ℕ → Text → Option ℕ → ℕ → MediaStore → Result MediaError MediaStore
mark_delete_failed id failure next_attempt now s =
    found_or record_not_found (first_where (asset_is id) s.assets) (λ asset.
      if is_deleted asset.status
      then ok s
      else ok (record s {
        assets =
            update_where (asset_is asset.id)
              (λ a. record a {
                status = delete_failed;
                delete_reason = trim_space failure;
                state_version = a.state_version + 1;
                updated_at = now;
              })
              s.assets;
        objects =
            if is_empty asset.object_id
            then s.objects
            else update_where (λ o. object_is asset.object_id o && o.ref_count == 0)
                (fail_object failure next_attempt now) s.objects;
      }))

-- A lease that has not ended.
abbrev pub is_claimed : Option DeletionJob → ℕ → Bool
is_claimed none now = false
is_claimed (some j) now = is_running j.status && not (is_expired j.lease_expires_at now)

abbrev pub reopen_deletion : ℕ → DeletionJob → DeletionJob
reopen_deletion now j = record j {
  status = job_pending;
  next_attempt_at = none;
  lease_owner = [];
  lease_expires_at = none;
  last_error = [];
  updated_at = now;
}

abbrev pub is_retriable : AssetStatus → Bool
is_retriable delete_failed = true
is_retriable delete_requested = true
is_retriable _ = false

unfoldable pub retry_deletion : ℕ → ℕ → MediaStore → Result MediaError MediaStore
retry_deletion id now s = found_or asset_not_found (first_where (asset_is id) s.assets) (λ asset.
    if not (is_retriable asset.status)
    then err asset_not_found
    else if is_claimed (first_where (same_asset id) s.deletions) now
    then ok s
    else let reset = record s {
      assets =
          update_where (asset_is id)
            (λ a. record a {
              status = delete_requested;
              state_version = a.state_version + 1;
              updated_at = now;
            })
            s.assets;
      objects =
          if is_empty asset.object_id
          then s.objects
          else update_where (λ o. object_is asset.object_id o && o.ref_count == 0)
              (λ o. record o { state = delete_pending; next_retry_at = none; updated_at = now })
              s.objects;
    } in
      if count_where (same_asset id) s.deletions == 0
      then ok (first_or_create asset [] now reset)
      else ok (record reset {
        deletions = update_where (same_asset id) (reopen_deletion now) s.deletions;
      }))
