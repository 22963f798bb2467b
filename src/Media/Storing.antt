-- ===== src/Media/Storing.antt =====
-- The calls that store media leave a revoked asset revoked (db/media.go).
use relay_gateway.Common.Base.{ℕ, ◌+◌, ◌||◌, ltb, ◌==◌, if◌then◌else◌, arith}
use relay_gateway.Common.Tables.{first_where, count_where}
use relay_gateway.Common.Text.{Text, codes, is_empty, trim_space}
use relay_gateway.Tasks.Runs.{TaskRun, is_task_terminal}
use relay_gateway.Tasks.Records.{has_event}
use relay_gateway.Tasks.RunStore.{find_run}
use relay_gateway.Media.Rows.{MediaAsset, MediaStore, is_revoked, asset_is, object_is}
use relay_gateway.Media.Assets.{
  insert_asset, create_asset, collides, live_asset, available_with, mark_available, mark_failed,
  finish_run, complete_task_run_after_media, unavailable, of_task,
}
use relay_gateway.Media.Closed.{
  Closed, Keeps, committed-Keeps, refused-Keeps, either-Keeps, found_or-Keeps, updated-Shut,
  count_where-append,
}

inserted-Closed :
    (id : ℕ) (asset : MediaAsset) (s : MediaStore) → Closed id s → Closed id (insert_asset asset s)
inserted-Closed id asset s c =
    let p = c.past in
    record {
      past = omega (arith, p);
      none_live = count_where-append (live_asset id) s.assets _ (ground (arith, p)) c.none_live;
    }

pub create_asset-Keeps :
    (id : ℕ) (asset : MediaAsset) (s : MediaStore) → Closed id s → Keeps id (create_asset asset s)
unfolding create_asset
create_asset-Keeps id asset s c =
    refused-Keeps id (is_empty (trim_space asset.public_id) || is_empty asset.capability_hash) _ _ (
      refused-Keeps id (ltb 0 (count_where (collides asset) s.assets)) _ _ (
        committed-Keeps id _ (
          inserted-Closed id
            (record asset { kind = if is_empty asset.kind then codes "unknown" else asset.kind }) s
            c)))

pub mark_available-Keeps :
    (id i : ℕ) (object content_type sha256 : Text) (size now : ℕ) (s : MediaStore)
    → Closed id s
    → Keeps id (mark_available i object content_type sha256 size now s)
unfolding mark_available
mark_available-Keeps id i object content_type sha256 size now s c =
    refused-Keeps id (is_empty object) _ _ (
      found_or-Keeps id _ (first_where (asset_is i) s.assets) _ (λ asset _.
        refused-Keeps id (is_revoked asset.status) _ _ (
          found_or-Keeps id _ (first_where (object_is (trim_space object)) s.objects) _ (λ o _.
            refused-Keeps id _ _ _ (
              committed-Keeps id _ (
                updated-Shut id s.next_asset (live_asset i)
                  (available_with object content_type sha256 size now) s.assets
                  (λ a q l. ground (arith, q, l)) c))))))

pub mark_failed-Keeps :
    (id i : ℕ) (failure : Text) (now : ℕ) (s : MediaStore)
    → Closed id s
    → Keeps id (mark_failed i failure now s)
unfolding mark_failed
mark_failed-Keeps id i failure now s c =
    refused-Keeps id (count_where (live_asset i) s.assets == 0) _ _ (
      committed-Keeps id _
        (updated-Shut id s.next_asset (live_asset i) _ s.assets (λ a q l. ground (arith, q, l)) c))

finish_run-Keeps :
    (id : ℕ) (r : TaskRun) (now : ℕ) (s : MediaStore) → Closed id s → Keeps id (finish_run r now s)
finish_run-Keeps id r now s c =
    refused-Keeps id (has_event r.id (r.event_sequence + 1) s.tasks.events) _ _
      (committed-Keeps id _ c)

pub complete_task-Keeps :
    (id : ℕ) (run kind : Text) (now : ℕ) (s : MediaStore)
    → Closed id s
    → Keeps id (complete_task_run_after_media run kind now s)
unfolding complete_task_run_after_media
complete_task-Keeps id run kind now s c =
    let same = committed-Keeps id s c in
    refused-Keeps id (is_empty (trim_space run)) _ _ (
      found_or-Keeps id _ (find_run (trim_space run) s.tasks.runs) _ (λ r _.
        either-Keeps id (is_task_terminal r.task_status) _ _ same (
          either-Keeps id (count_where (of_task (trim_space run) (trim_space kind)) s.assets == 0) _
            _ same
            (either-Keeps id
              (ltb 0 (count_where (unavailable (trim_space run) (trim_space kind)) s.assets)) _ _
              same (finish_run-Keeps id r now s c)))))
