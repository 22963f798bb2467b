-- ===== src/Media/Revocation.antt =====
-- An asset that was deleted is never served again (db/media.go, db/media_materialization_lease.go).
use relay_gateway.Common.Base.{
  ℕ, ◌<◌, ◌≡◌, ◌≢◌, subst, inl, inr, true, false, ◌&&◌, some, List, [], ◌∷◌, ◌==◌, arith,
  Bool-cases, Option-cases,
}
use relay_gateway.Common.Results.{Result, ok, err}
use relay_gateway.Common.Tables.{first_where, count_where}
use relay_gateway.Common.Text.{Text, is_empty, trim_space}
use relay_gateway.Media.Rows.{
  MediaAsset, MediaStore, MediaError, is_revoked, is_deleted, asset_is, object_is, attempt,
}
use relay_gateway.Media.Assets.{has_public_id, live_asset}
use relay_gateway.Media.Closed.{
  Closed, Keeps, committed-Keeps, refused-Keeps, first_where-count_where, first_where-found,
  count_where-all,
}
use relay_gateway.Media.Assets.{get_asset_by_link}
use relay_gateway.Media.Deletion.{request_delete, revoke, revoke_asset, object_of, key_of}
use relay_gateway.Media.Objects.{acquire_object_reference, prepare_object_deletion, is_ready}
use relay_gateway.Media.Jobs.{time_or_null, complete_materialization, fail_materialization}
use relay_gateway.Media.DeletionJobs.{complete_deletion, fail_deletion}
use relay_gateway.Media.Storing.{
  create_asset-Keeps, mark_available-Keeps, mark_failed-Keeps, complete_task-Keeps,
}
use relay_gateway.Media.Removing.{
  first_or_create-Closed, request_delete-Keeps, hard_delete-Closed, complete_asset_delete-Keeps,
  mark_delete_failed-Keeps, retry_deletion-Keeps, claim_deletion-Keeps, update_deletions-Keeps,
  renew_deletion-Keeps, complete_deletion_for_lease-Keeps, fail_deletion_for_lease-Keeps,
}
use relay_gateway.Media.Fetching.{
  update_jobs-Keeps, create_job-Keeps, create_asset_for_materialization-Keeps, claim_asset-Keeps,
  claim_materialization-Keeps, renew_materialization-Keeps, complete_for_lease-Keeps,
  fail_for_lease-Keeps, fail_with_asset-Keeps, create_object-Keeps, commit-Keeps,
  retry_materialization-Keeps,
}
use relay_gateway.Media.System.{
  Call, creates_asset, marks_available, marks_failed, completes_task, creates_object,
  acquires_reference, prepares_deletion, requests_delete, hard_deletes, completes_delete,
  retries_deletion, retries_fetching, creates_job, marks_delete_failed, creates_for_fetching,
  claims_asset, claims_job, claims_deletion, renews_job, renews_deletion, completes_job,
  completes_deletion, completes_held_job, completes_held_deletion, fails_job, fails_deletion,
  fails_held_job, fails_held_deletion, fails_with_asset, commits, call_of, run_calls,
}

call_of-Keeps :
    (id : ℕ) (call : Call) (now : ℕ) (s : MediaStore) → Closed id s → Keeps id (call_of call now s)
unfolding call_of complete_materialization fail_materialization complete_deletion fail_deletion
    acquire_object_reference prepare_object_deletion
call_of-Keeps id (creates_asset asset) now s = create_asset-Keeps id asset s
call_of-Keeps id (marks_available i object content_type sha256 size) now s =
    mark_available-Keeps id i object content_type sha256 size now s
call_of-Keeps id (marks_failed i failure) now s = mark_failed-Keeps id i failure now s
call_of-Keeps id (completes_task run kind) now s = complete_task-Keeps id run kind now s
call_of-Keeps id (creates_object object) now s = create_object-Keeps id object s
call_of-Keeps id (acquires_reference i) now s = λ c.
    refused-Keeps id
      (count_where (λ o. object_is (trim_space i) o && is_ready o.state) s.objects == 0) _ _
      (committed-Keeps id _ c)
call_of-Keeps id (prepares_deletion i) now s = λ c. committed-Keeps id _ c
call_of-Keeps id (requests_delete public_id reason) now s =
    request_delete-Keeps id public_id reason now s
call_of-Keeps id (hard_deletes i) now s = λ c. committed-Keeps id _ (hard_delete-Closed id i s c)
call_of-Keeps id (completes_delete i) now s = complete_asset_delete-Keeps id i now s
call_of-Keeps id (retries_deletion i) now s = retry_deletion-Keeps id i now s
call_of-Keeps id (retries_fetching i) now s = retry_materialization-Keeps id i now s
call_of-Keeps id (creates_job asset) now s = create_job-Keeps id asset now s
call_of-Keeps id (marks_delete_failed i failure next_attempt) now s =
    mark_delete_failed-Keeps id i failure (time_or_null next_attempt) now s
call_of-Keeps id (creates_for_fetching asset token owner lease) now s =
    create_asset_for_materialization-Keeps id asset token owner lease now s
call_of-Keeps id (claims_asset asset token owner lease) now s =
    claim_asset-Keeps id asset token owner lease now s
call_of-Keeps id (claims_job token owner lease) now s =
    claim_materialization-Keeps id token owner lease now s
call_of-Keeps id (claims_deletion token owner lease) now s =
    claim_deletion-Keeps id token owner lease now s
call_of-Keeps id (renews_job i owner lease) now s =
    renew_materialization-Keeps id i owner lease now s
call_of-Keeps id (renews_deletion i owner lease) now s = renew_deletion-Keeps id i owner lease now s
call_of-Keeps id (completes_job i) now s = update_jobs-Keeps id _ (λ j. j.id == i) _ s
call_of-Keeps id (completes_deletion i) now s = update_deletions-Keeps id _ (λ j. j.id == i) _ s
call_of-Keeps id (completes_held_job i owner) now s = complete_for_lease-Keeps id i owner now s
call_of-Keeps id (completes_held_deletion i owner) now s =
    complete_deletion_for_lease-Keeps id i owner now s
call_of-Keeps id (fails_job i failure next_attempt) now s =
    update_jobs-Keeps id _ (λ j. j.id == i) _ s
call_of-Keeps id (fails_deletion i failure next_attempt) now s =
    update_deletions-Keeps id _ (λ j. j.id == i) _ s
call_of-Keeps id (fails_held_job i owner failure next_attempt) now s =
    fail_for_lease-Keeps id i owner failure next_attempt now s
call_of-Keeps id (fails_held_deletion i owner failure next_attempt) now s =
    fail_deletion_for_lease-Keeps id i owner failure next_attempt now s
call_of-Keeps id (fails_with_asset job failure next_attempt) now s =
    fail_with_asset-Keeps id job failure next_attempt now s
call_of-Keeps id (commits job object) now s = commit-Keeps id job object now s

attempt-Closed :
    (id : ℕ) (s : MediaStore) (x : Result MediaError MediaStore)
    → Closed id s
    → Keeps id x
    → Closed id (attempt s x)
unfolding Keeps
attempt-Closed id s (ok s') c k = k
attempt-Closed id s (err e) c k = c

run_calls-Closed :
    (id : ℕ) (s : MediaStore) (calls : List (Call × ℕ))
    → Closed id s
    → Closed id (run_calls s calls)
unfolding run_calls
run_calls-Closed id s [] c = c
run_calls-Closed id s ((call, now) ∷ calls) c =
    run_calls-Closed id (attempt s (call_of call now s)) calls
      (attempt-Closed id s (call_of call now s) c (call_of-Keeps id call now s c))

-- A closed asset is not served.
not_served :
    (id : ℕ) (sha : Text → Text) (public_id capability : Text) (s : MediaStore) (a : MediaAsset)
    → Closed id s
    → get_asset_by_link sha public_id capability s ≡ ok a
    → a.id ≢ id
unfolding get_asset_by_link
not_served id sha public_id capability s a c e i =
    elim (Option-cases (first_where (has_public_id (trim_space public_id)) s.assets)) [
      | inl f ↦ ground (arith, e, f)
      | inr (b, f) ↦
          let same : (b.id ≡ a.id) × (is_revoked b.status ≡ false) = ground (arith, e, f) in
          let found =
            first_where-found (has_public_id (trim_space public_id)) (live_asset id) s.assets b f
              (ground (arith, same, i)) in
          let shut = c.none_live in ground (arith, found, shut)
    ]

-- An asset of which a deletion was requested is closed.
revoked-Closed :
    (s : MediaStore) (asset : MediaAsset) (reason : Text) (now : ℕ) (public_id : Text)
    → first_where (has_public_id public_id) s.assets ≡ some asset
    → count_where (asset_is asset.id) s.assets ≡ 1
    → asset.id < s.next_asset
    → Closed asset.id (revoke asset reason now s)
revoked-Closed s asset reason now public_id f one p = elim (Bool-cases (is_revoked asset.status)) [
  | inl e ↦
      let few =
        first_where-count_where (has_public_id public_id) (asset_is asset.id) (live_asset asset.id)
          s.assets asset f (λ r q. ground (arith, q)) (ground arith) (ground (arith, e)) in
      rw e (record { past = p; none_live = omega (arith, few, one) })
  | inr e ↦ rw e (record {
    past = p;
    none_live =
        count_where-all (live_asset asset.id) (asset_is asset.id) (revoke_asset reason now) s.assets
          (λ r q. ground (arith, q)) (λ r q. ground arith);
  })
]

request_delete-Closed :
    (s s' : MediaStore) (public_id reason : Text) (now : ℕ) (asset : MediaAsset)
    → request_delete public_id reason now s ≡ ok s'
    → first_where (has_public_id (trim_space public_id)) s.assets ≡ some asset
    → count_where (asset_is asset.id) s.assets ≡ 1
    → asset.id < s.next_asset
    → Closed asset.id s'
unfolding request_delete
request_delete-Closed s s' public_id reason now asset e f one p =
    let c = revoked-Closed s asset reason now (trim_space public_id) f one p in
    elim (Bool-cases (is_empty (trim_space public_id))) [
      | inl b ↦ elim (refused (rw b at e)) [ ]
      | inr b ↦ elim (Bool-cases (is_deleted asset.status)) [
        | inl d ↦
            let was_revoked : is_revoked asset.status ≡ true = ground (arith, d) in
            let same : s ≡ s' = committed (rw (b, f, d) at e) in
            let before : Closed asset.id s = rw was_revoked at c in
            subst (Closed asset.id) same before
        | inr d ↦
            let same = committed (rw (b, f, d) at e) in
            subst (Closed asset.id) same
              (first_or_create-Closed asset.id asset (key_of (object_of asset s.objects)) now _ c)
      ]
    ]
  where
    refused : {x : MediaError} → ◌≡◌ {A = Result MediaError MediaStore} (err x) (ok s') → ⊥
    refused q = cc

    committed : {x : MediaStore} → ◌≡◌ {A = Result MediaError MediaStore} (ok x) (ok s') → x ≡ s'
    committed q = cc

-- Once a deletion of an asset was requested, where its id is a primary key below the next one, no link is
-- answered with the asset again: not after any sequence of creations, claims, commits of late downloads,
-- failures, retries, deletions and purges, at any times.
pub run_calls-get_asset_by_link :
    (s s' : MediaStore) (public_id reason : Text) (now : ℕ) (asset got : MediaAsset)
    (calls : List (Call × ℕ)) (sha : Text → Text) (link capability : Text)
    → request_delete public_id reason now s ≡ ok s'
    → first_where (has_public_id (trim_space public_id)) s.assets ≡ some asset
    → count_where (asset_is asset.id) s.assets ≡ 1
    → asset.id < s.next_asset
    → get_asset_by_link sha link capability (run_calls s' calls) ≡ ok got
    → got.id ≢ asset.id
run_calls-get_asset_by_link s s' public_id reason now asset got calls sha link capability e f one p
      g =
    not_served asset.id sha link capability (run_calls s' calls) got
      (run_calls-Closed asset.id s' calls
        (request_delete-Closed s s' public_id reason now asset e f one p))
      g
