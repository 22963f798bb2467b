-- ===== src/Media/Objects.antt =====
-- Objects (db/media.go): creation, references, and the right to remove the file.
use relay_gateway.Common.Base.{
  ℕ, ◌+◌, Bool, true, false, ◌&&◌, ◌||◌, [], ◌∷◌, ◌++◌, ltb, ◌==◌, if◌then◌else◌,
}
use relay_gateway.Common.Results.{Result, ok, err}
use relay_gateway.Common.Tables.{count_where, update_where}
use relay_gateway.Common.Text.{Text, text_eq, is_empty, trim_space}
use relay_gateway.Media.Rows.{
  ObjectState, ready, delete_pending, deleting, object_delete_failed, MediaObject, MediaStore,
  MediaError, asset_gone, identity_required, duplicate_key, object_is,
}

-- The unique indexes on the key and on the storage key.
abbrev pub object_collides : MediaObject → MediaObject → Bool
object_collides object o = text_eq o.id object.id || text_eq o.storage_key object.storage_key

unfoldable pub create_object : MediaObject → MediaStore → Result MediaError MediaStore
create_object object s =
    if is_empty (trim_space object.id) || is_empty (trim_space object.storage_key)
    then err identity_required
    else if ltb 0 (count_where (object_collides object) s.objects)
    then err duplicate_key
    else ok (record s {
      objects =
          s.objects
          ++ record object { ref_count = if object.ref_count == 0 then 1 else object.ref_count }
            ∷ [];
    })

abbrev pub is_ready : ObjectState → Bool
is_ready ready = true
is_ready _ = false

unfoldable pub acquire_object_reference : Text → ℕ → MediaStore → Result MediaError MediaStore
acquire_object_reference id now s =
    let open_ : MediaObject → Bool = λ o. object_is (trim_space id) o && is_ready o.state in
    if count_where open_ s.objects == 0
    then err asset_gone
    else ok (record s {
      objects =
          update_where open_ (λ o. record o { ref_count = o.ref_count + 1; updated_at = now })
            s.objects;
    })

-- `state IN (delete_pending, delete_failed, deleting)`.
abbrev pub awaits_deletion : ObjectState → Bool
awaits_deletion delete_pending = true
awaits_deletion object_delete_failed = true
awaits_deletion deleting = true
awaits_deletion _ = false

-- With the answer whether the object may be removed from the disk.
unfoldable pub prepare_object_deletion : Text → ℕ → MediaStore → MediaStore × Bool
prepare_object_deletion id now s =
    let free : MediaObject → Bool =
      λ o. object_is (trim_space id) o && (awaits_deletion o.state && o.ref_count == 0) in
    (
      record s {
        objects =
            update_where free (λ o. record o { state = deleting; updated_at = now }) s.objects;
      },
      ltb 0 (count_where free s.objects),
    )
