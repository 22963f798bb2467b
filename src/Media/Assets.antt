-- ===== src/Media/Assets.antt =====
-- Assets (db/media.go): creation, links, availability, and the end of a task whose media is stored. SHA-256 in hexadecimal is a parameter.
use relay_gateway.Common.Base.{
  ℕ, ◌+◌, ◌-◌, Bool, not, ◌&&◌, ◌||◌, Option, none, some, List, [], ◌∷◌, ◌++◌, ltb, ◌==◌,
  if◌then◌else◌,
}
use relay_gateway.Common.Results.{Result, ok, err}
use relay_gateway.Common.Tables.{first_where, count_where, update_where}
use relay_gateway.Common.Text.{Text, codes, text_eq, is_empty, trim_space}
use relay_gateway.Tasks.Runs.{TaskRun, is_task_terminal}
use relay_gateway.Tasks.Records.{update_run, has_event}
use relay_gateway.Tasks.RunStore.{find_run}
use relay_gateway.Media.Rows.{
  available, failed, ready, delete_pending, MediaAsset, MediaObject, MediaStore, MediaError,
  asset_not_found, asset_gone, identity_required, record_not_found, duplicate_key, is_revoked,
  is_available, is_object_deleted, asset_is, object_is, found_or,
}

-- The unique indexes on the public id, and on the task with the ordinal.
abbrev pub collides : MediaAsset → MediaAsset → Bool
collides asset a =
    text_eq a.public_id asset.public_id
    || text_eq a.task_run_id asset.task_run_id && a.ordinal == asset.ordinal

abbrev pub insert_asset : MediaAsset → MediaStore → MediaStore
insert_asset asset s = record s {
  assets = s.assets ++ record asset { id = s.next_asset } ∷ [];
  next_asset = s.next_asset + 1;
}

unfoldable pub create_asset : MediaAsset → MediaStore → Result MediaError MediaStore
create_asset asset s =
    if is_empty (trim_space asset.public_id) || is_empty asset.capability_hash
    then err identity_required
    else if ltb 0 (count_where (collides asset) s.assets)
    then err duplicate_key
    else ok (
        insert_asset
          (record asset { kind = if is_empty asset.kind then codes "unknown" else asset.kind }) s)

abbrev pub check_link : (Text → Text) → Text → Option MediaAsset → Result MediaError MediaAsset
check_link sha capability none = err asset_not_found
check_link sha capability (some a) =
    if not (text_eq (sha capability) a.capability_hash)
    then err asset_not_found
    else if is_revoked a.status
    then err asset_gone
    else ok a

abbrev pub has_public_id : Text → MediaAsset → Bool
has_public_id id a = text_eq a.public_id id

unfoldable pub get_asset_by_link :
    (Text → Text) → Text → Text → MediaStore → Result MediaError MediaAsset
get_asset_by_link sha public_id capability s =
    if is_empty (trim_space public_id) || is_empty (trim_space capability)
    then err asset_not_found
    else check_link sha (trim_space capability)
        (first_where (has_public_id (trim_space public_id)) s.assets)

-- The object that an asset leaves for another one.
abbrev pub release_old : Text → ℕ → List MediaObject → List MediaObject
release_old old now objects =
    update_where (λ o. object_is old o && (o.ref_count == 0 && not (is_object_deleted o.state)))
      (λ o. record o { state = delete_pending; next_retry_at = none; updated_at = now })
      (update_where (λ o. object_is old o && ltb 0 o.ref_count)
        (λ o. record o { ref_count = o.ref_count - 1; updated_at = now }) objects)

-- Live references by other assets.
abbrev pub refers_live : ℕ → Text → MediaAsset → Bool
refers_live id object a =
    text_eq a.object_id object && (not (is_revoked a.status) && not (asset_is id a))

abbrev pub attach : MediaAsset → Text → ℕ → MediaStore → List MediaObject
attach asset object now s =
    if text_eq (trim_space asset.object_id) (trim_space object)
    then s.objects
    else update_where (object_is (trim_space object))
        (λ o. record o {
          state = ready;
          updated_at = now;
          ref_count =
              if ltb 0 (count_where (refers_live asset.id object) s.assets)
              then o.ref_count + 1
              else o.ref_count;
        })
        (if is_empty (trim_space asset.object_id)
          then s.objects
          else release_old (trim_space asset.object_id) now s.objects)

abbrev pub live_asset : ℕ → MediaAsset → Bool
live_asset id a = asset_is id a && not (is_revoked a.status)

abbrev pub available_with : Text → Text → Text → ℕ → ℕ → MediaAsset → MediaAsset
available_with object content_type sha256 size now a = record a {
  object_id = object;
  status = available;
  content_type = content_type;
  sha256 = sha256;
  byte_size = size;
  available_at = some now;
  state_version = a.state_version + 1;
  updated_at = now;
}

unfoldable pub mark_available :
    ℕ → Text → Text → Text → ℕ → ℕ → MediaStore → Result MediaError MediaStore
mark_available id object content_type sha256 size now s =
    if is_empty object
    then err identity_required
    else found_or record_not_found (first_where (asset_is id) s.assets) (λ asset.
      if is_revoked asset.status
      then err asset_gone
      else found_or asset_not_found (first_where (object_is (trim_space object)) s.objects) (λ o.
        if is_object_deleted o.state
        then err asset_gone
        else ok (record s {
          objects = attach asset object now s;
          assets =
              update_where (live_asset id) (available_with object content_type sha256 size now)
                s.assets;
        })))

unfoldable pub mark_failed : ℕ → Text → ℕ → MediaStore → Result MediaError MediaStore
mark_failed id failure now s =
    if count_where (live_asset id) s.assets == 0
    then err asset_not_found
    else ok (record s {
      assets =
          update_where (live_asset id)
            (λ a. record a {
              status = failed;
              delete_reason = trim_space failure;
              state_version = a.state_version + 1;
              updated_at = now;
            })
            s.assets;
    })

-- The assets of a task, of one kind where one is given, and those that are not there yet.
abbrev pub of_task : Text → Text → MediaAsset → Bool
of_task run kind a = text_eq a.task_run_id run && (is_empty kind || text_eq a.kind kind)

abbrev pub unavailable : Text → Text → MediaAsset → Bool
unavailable run kind a = of_task run kind a && (not (is_available a.status) || is_empty a.object_id)

abbrev pub complete_run : ℕ → TaskRun → TaskRun
complete_run now run = record run {
  task_status = codes "completed";
  task_outcome = codes "success";
  completed_at = some now;
  event_sequence = run.event_sequence + 1;
  state_version = run.state_version + 2;
  updated_at = now;
}

abbrev pub finish_run : TaskRun → ℕ → MediaStore → Result MediaError MediaStore
finish_run run now s =
    if has_event run.id (run.event_sequence + 1) s.tasks.events
    then err duplicate_key
    else ok (record s {
      tasks = record s.tasks {
        runs = (update_run run.id (complete_run now) s.tasks.runs).0;
        events =
            s.tasks.events
            ++ record {
              task_run_id = run.id;
              sequence = run.event_sequence + 1;
              event_type = codes "status_changed";
              payload = codes "completed";
            }
              ∷ [];
      };
    })

-- A status that counts as final is not "materializing", so the second test of the code always holds.
unfoldable pub complete_task_run_after_media :
    Text → Text → ℕ → MediaStore → Result MediaError MediaStore
complete_task_run_after_media task_run_id kind now s =
    let id = trim_space task_run_id in
    if is_empty id
    then err identity_required
    else found_or record_not_found (find_run id s.tasks.runs) (λ run.
      if is_task_terminal run.task_status
      then ok s
      else if count_where (of_task id (trim_space kind)) s.assets == 0
      then ok s
      else if ltb 0 (count_where (unavailable id (trim_space kind)) s.assets)
      then ok s
      else finish_run run now s)
