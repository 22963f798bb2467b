-- ===== src/Media/Removing.antt =====
-- The calls that remove media leave a revoked asset revoked (db/media.go).
use relay_gateway.Common.Base.{
  ℕ, ◌+◌, inl, inr, Bool, true, false, not, ◌||◌, Option, [], ltb, ◌==◌, if◌then◌else◌, arith,
  Bool-cases, Option-cases,
}
use relay_gateway.Common.Results.{Result, ok, err}
use relay_gateway.Common.Tables.{first_where, count_where, update_where}
use relay_gateway.Common.Text.{Text, is_empty, trim_space}
use relay_gateway.Tasks.Runs.{task_lease_owner}
use relay_gateway.Media.Rows.{
  delete_requested, MediaAsset, DeletionJob, MediaStore, MediaError, lease_owner_mismatch,
  record_not_found, is_revoked, is_deleted, asset_is,
}
use relay_gateway.Media.Assets.{has_public_id, live_asset}
use relay_gateway.Media.Closed.{
  Shut, Closed, Keeps, committed-Keeps, refused-Keeps, either-Keeps, found_or-Keeps, then-Keeps,
  updated-Shut, count_where-delete_where,
}
use relay_gateway.Media.Deletion.{
  same_asset, first_or_create, object_of, key_of, revoke_asset, revoke, request_delete, hard_delete,
  complete_asset_delete, mark_delete_failed, is_claimed, is_retriable, retry_deletion,
}
use relay_gateway.Media.Jobs.{time_or_null}
use relay_gateway.Media.DeletionJobs.{
  first_due_deletion, claim_deletion, held_deletion, update_deletions, renew_deletion,
  succeed_deletion, unless_missing, purged_or_kept, complete_deletion_for_lease,
  fail_deletion_for_lease,
}

pub first_or_create-Closed :
    (id : ℕ) (asset : MediaAsset) (key : Text) (now : ℕ) (s : MediaStore)
    → Closed id s
    → Closed id (first_or_create asset key now s)
first_or_create-Closed id asset key now s c =
    elim (Bool-cases (ltb 0 (count_where (same_asset asset.id) s.deletions))) [
      | inl e ↦ rw e c
      | inr e ↦ rw e c
    ]

revoke-Closed :
    (id : ℕ) (asset : MediaAsset) (reason : Text) (now : ℕ) (s : MediaStore)
    → Closed id s
    → Closed id (revoke asset reason now s)
revoke-Closed id asset reason now s c = elim (Bool-cases (is_revoked asset.status)) [
  | inl e ↦ rw e c
  | inr e ↦ rw e (
      updated-Shut id s.next_asset (asset_is asset.id) (revoke_asset reason now) s.assets
        (λ a q l. ground (arith, l)) c)
]

pub request_delete-Keeps :
    (id : ℕ) (public_id reason : Text) (now : ℕ) (s : MediaStore)
    → Closed id s
    → Keeps id (request_delete public_id reason now s)
unfolding request_delete
request_delete-Keeps id public_id reason now s c =
    refused-Keeps id (is_empty (trim_space public_id)) _ _ (
      found_or-Keeps id _ (first_where (has_public_id (trim_space public_id)) s.assets) _
        (λ asset _. either-Keeps id (is_deleted asset.status) _ _ (committed-Keeps id s c) (
          committed-Keeps id _ (
            first_or_create-Closed id asset (key_of (object_of asset s.objects)) now
              (revoke asset reason now s) (revoke-Closed id asset reason now s c)))))

pub hard_delete-Closed :
    (id i : ℕ) (s : MediaStore) → Closed id s → Closed id (purged_or_kept s (hard_delete i s))
unfolding hard_delete
hard_delete-Closed id i s c = elim (Option-cases (first_where (asset_is i) s.assets)) [
  | inl e ↦ rw (e, hard_delete) c
  | inr (asset, e) ↦
      rw (e, hard_delete)
        (record {
          past = c.past;
          none_live =
              count_where-delete_where (live_asset id) (asset_is asset.id) s.assets c.none_live;
        })
]

pub complete_asset_delete-Keeps :
    (id i now : ℕ) (s : MediaStore) → Closed id s → Keeps id (complete_asset_delete i now s)
unfolding complete_asset_delete
complete_asset_delete-Keeps id i now s c =
    found_or-Keeps id _ (first_where (asset_is i) s.assets) _ (λ asset _.
      either-Keeps id (is_deleted asset.status) _ _ (committed-Keeps id s c) (
        committed-Keeps id _ (
          updated-Shut id s.next_asset (asset_is asset.id) _ s.assets (λ a q l. ground (arith, l))
            c)))

pub mark_delete_failed-Keeps :
    (id i : ℕ) (failure : Text) (next_attempt : Option ℕ) (now : ℕ) (s : MediaStore)
    → Closed id s
    → Keeps id (mark_delete_failed i failure next_attempt now s)
unfolding mark_delete_failed
mark_delete_failed-Keeps id i failure next_attempt now s c =
    found_or-Keeps id _ (first_where (asset_is i) s.assets) _ (λ asset _.
      either-Keeps id (is_deleted asset.status) _ _ (committed-Keeps id s c) (
        committed-Keeps id _ (
          updated-Shut id s.next_asset (asset_is asset.id) _ s.assets (λ a q l. ground (arith, l))
            c)))

pub retry_deletion-Keeps :
    (id i now : ℕ) (s : MediaStore) → Closed id s → Keeps id (retry_deletion i now s)
unfolding retry_deletion
retry_deletion-Keeps id i now s c =
    let reset : MediaAsset → MediaAsset = λ a. record a {
      status = delete_requested;
      state_version = a.state_version + 1;
      updated_at = now;
    } in
    let shut : Shut id s.next_asset (update_where (asset_is i) reset s.assets) =
      updated-Shut id s.next_asset (asset_is i) reset s.assets (λ a q l. ground (arith, l)) c in
    found_or-Keeps id _ (first_where (asset_is i) s.assets) _ (λ asset _.
      refused-Keeps id (not (is_retriable asset.status)) _ _ (
        either-Keeps id (is_claimed (first_where (same_asset i) s.deletions) now) _ _
          (committed-Keeps id s c)
          (either-Keeps id (count_where (same_asset i) s.deletions == 0) _ _
            (committed-Keeps id _ (first_or_create-Closed id asset [] now _ shut))
            (committed-Keeps id _ shut))))

pub claim_deletion-Keeps :
    (id : ℕ) (token owner : Text) (lease now : ℕ) (s : MediaStore)
    → Closed id s
    → Keeps id (claim_deletion token owner lease now s)
unfolding claim_deletion
claim_deletion-Keeps id token owner lease now s c =
    found_or-Keeps id _ (task_lease_owner token owner) _ (λ holder _.
      found_or-Keeps id _ (first_due_deletion now s.deletions) _ (λ job _. committed-Keeps id _ c))

pub update_deletions-Keeps :
    (id : ℕ) (e : MediaError) (q : DeletionJob → Bool) (f : DeletionJob → DeletionJob)
    (s : MediaStore)
    → Closed id s
    → Keeps id (update_deletions e q f s)
update_deletions-Keeps id e q f s c =
    refused-Keeps id (count_where q s.deletions == 0) _ _ (committed-Keeps id _ c)

pub renew_deletion-Keeps :
    (id i : ℕ) (owner : Text) (lease now : ℕ) (s : MediaStore)
    → Closed id s
    → Keeps id (renew_deletion i owner lease now s)
unfolding renew_deletion
renew_deletion-Keeps id i owner lease now s c =
    refused-Keeps id (lease == 0) _ _
      (update_deletions-Keeps id _ (held_deletion i owner now) _ s c)

unless_missing-Keeps :
    (id : ℕ) (s : MediaStore) (x : Result MediaError MediaStore)
    → Closed id s
    → Keeps id x
    → Keeps id (unless_missing s x)
unfolding Keeps
unless_missing-Keeps id s (ok s') c k = k
unless_missing-Keeps id s (err record_not_found) c k = c
unless_missing-Keeps id s (err _) c k = tt

purged-Closed :
    (id i : ℕ) (b : Bool) (s : MediaStore)
    → Closed id s
    → Closed id (if b then purged_or_kept s (hard_delete i s) else s)
purged-Closed id i true s c = hard_delete-Closed id i s c
purged-Closed id i false s c = c

pub complete_deletion_for_lease-Keeps :
    (id i : ℕ) (owner : Text) (now : ℕ) (s : MediaStore)
    → Closed id s
    → Keeps id (complete_deletion_for_lease i owner now s)
unfolding complete_deletion_for_lease
complete_deletion_for_lease-Keeps id i owner now s c =
    refused-Keeps id (i == 0 || is_empty (trim_space owner)) _ _ (
      found_or-Keeps id _ (first_where (λ j. j.id == i) s.deletions) _ (λ job _.
        then-Keeps id _ _
          (then-Keeps id
            (update_deletions lease_owner_mismatch (held_deletion i (trim_space owner) now)
              (succeed_deletion now) s)
            _ (update_deletions-Keeps id _ (held_deletion i (trim_space owner) now) _ s c)
            (λ s1 c1.
              unless_missing-Keeps id s1 _ c1
                (complete_asset_delete-Keeps id job.asset_id now s1 c1)))
          (λ s2 c2.
            committed-Keeps id _ (purged-Closed id job.asset_id job.purge_after_delete s2 c2))))

pub fail_deletion_for_lease-Keeps :
    (id i : ℕ) (owner failure : Text) (next_attempt now : ℕ) (s : MediaStore)
    → Closed id s
    → Keeps id (fail_deletion_for_lease i owner failure next_attempt now s)
unfolding fail_deletion_for_lease
fail_deletion_for_lease-Keeps id i owner failure next_attempt now s c =
    refused-Keeps id (i == 0 || is_empty (trim_space owner)) _ _ (
      found_or-Keeps id _ (first_where (λ j. j.id == i) s.deletions) _ (λ job _.
        then-Keeps id _ _
          (update_deletions-Keeps id _ (held_deletion i (trim_space owner) now) _ s c)
          (mark_delete_failed-Keeps id job.asset_id failure (time_or_null next_attempt) now)))
