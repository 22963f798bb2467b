-- ===== src/Media/Completion.antt =====
-- The end of a task by its last medium (db/media.go `CompleteTaskRunAfterMediaContext`,
-- db/media_materialization_lease.go `CommitMediaMaterializationContext`) numbers its event as the
-- next one.
use relay_gateway.Common.Base.{
  ℕ, ◌+◌, ◌≡◌, refl, sym, subst, ap, ◌∙◌, ltb, ◌==◌, Bool, true, false, Option, none, some,
  if◌then◌else◌, arith,
}
use relay_gateway.Common.Results.{Result, ok, err, ◌>>=◌}
use relay_gateway.Common.Tables.{first_where, count_where}
use relay_gateway.Common.Text.{Text, is_empty, trim_space}
use relay_gateway.Tasks.Runs.{TaskRun, is_task_terminal}
use relay_gateway.Tasks.Records.{has_event}
use relay_gateway.Tasks.RunStore.{find_run}
use relay_gateway.Tasks.Records.System.{find_run-id}
use relay_gateway.Tasks.Records.Moves.{with_event-Moves}
use relay_gateway.Tasks.Records.Events.{Numbered, Moves-Numbered}
use relay_gateway.Media.Rows.{
  MediaAsset, MediaObject, MaterializationJob, MediaStore, MediaError, record_not_found, found_or,
  asset_is,
}
use relay_gateway.Media.Assets.{
  complete_run, finish_run, of_task, unavailable, complete_task_run_after_media,
}
use relay_gateway.Media.Materialize.{ignore_missing, complete_task_of, commit_materialization}
use relay_gateway.Media.Untouched.{Leaves, mark_available-Leaves, create_object-Leaves}

-- Where a transaction commits, the events are numbered afterwards.
unfoldable pub KeepsNumbers : Result MediaError MediaStore → Type 0
KeepsNumbers (ok s) = Numbered s.tasks
KeepsNumbers (err e) = Unit {0}

pub left-KeepsNumbers :
    (s : MediaStore) (x : Result MediaError MediaStore)
    → Numbered s.tasks
    → Leaves s x
    → KeepsNumbers x
unfolding KeepsNumbers
left-KeepsNumbers s (ok s') h e = subst Numbered (sym e) h
left-KeepsNumbers s (err e) h k = tt

either-KeepsNumbers :
    (b : Bool) (x y : Result MediaError MediaStore)
    → KeepsNumbers x
    → KeepsNumbers y
    → KeepsNumbers (if b then x else y)
either-KeepsNumbers true x y k m = k
either-KeepsNumbers false x y k m = m

found_or-KeepsNumbers {ℓ} :
    {A : Type ℓ} (e : MediaError) (o : Option A) (f : A → Result MediaError MediaStore)
    → ((a : A) → o ≡ some a → KeepsNumbers (f a))
    → KeepsNumbers (found_or e o f)
unfolding KeepsNumbers
found_or-KeepsNumbers e none f h = tt
found_or-KeepsNumbers e (some a) f h = h a refl

then-KeepsNumbers :
    (x : Result MediaError MediaStore) (f : MediaStore → Result MediaError MediaStore)
    → KeepsNumbers x
    → ((s : MediaStore) → Numbered s.tasks → KeepsNumbers (f s))
    → KeepsNumbers (x >>= f)
unfolding KeepsNumbers
then-KeepsNumbers (ok s) f k h = h s k
then-KeepsNumbers (err e) f k h = tt

refused-KeepsNumbers : (e : MediaError) → KeepsNumbers (err e)
unfolding KeepsNumbers
refused-KeepsNumbers e = tt

pub committed-KeepsNumbers : (s : MediaStore) → Numbered s.tasks → KeepsNumbers (ok s)
unfolding KeepsNumbers
committed-KeepsNumbers s h = h

finish_run-KeepsNumbers :
    (run : TaskRun) (now : ℕ) (s : MediaStore)
    → find_run run.id s.tasks.runs ≡ some run
    → Numbered s.tasks
    → KeepsNumbers (finish_run run now s)
finish_run-KeepsNumbers run now s f h =
    either-KeepsNumbers (has_event run.id (run.event_sequence + 1) s.tasks.events) _ _
      (refused-KeepsNumbers _)
      (committed-KeepsNumbers _ (λ id.
        Moves-Numbered id 0 s.tasks _
          (with_event-Moves id 0 (complete_run now) run _ s.tasks (λ r. refl) refl f refl refl) refl
          (h id)))

pub complete_task-KeepsNumbers :
    (task_run_id kind : Text) (now : ℕ) (s : MediaStore)
    → Numbered s.tasks
    → KeepsNumbers (complete_task_run_after_media task_run_id kind now s)
unfolding complete_task_run_after_media
complete_task-KeepsNumbers task_run_id kind now s h =
    let id = trim_space task_run_id in
    either-KeepsNumbers (is_empty id) _ _ (refused-KeepsNumbers _) (
      found_or-KeepsNumbers _ (find_run id s.tasks.runs) _ (λ run f.
        either-KeepsNumbers (is_task_terminal run.task_status) _ _ (committed-KeepsNumbers s h) (
          either-KeepsNumbers (count_where (of_task id (trim_space kind)) s.assets == 0) _ _
            (committed-KeepsNumbers s h)
            (either-KeepsNumbers (ltb 0 (count_where (unavailable id (trim_space kind)) s.assets)) _
              _ (committed-KeepsNumbers s h)
              (finish_run-KeepsNumbers run now s
                (ap (λ k. find_run k s.tasks.runs) (find_run-id id s.tasks.runs run f) ∙ f) h)))))

ignore_missing-KeepsNumbers :
    (s : MediaStore) (x : Result MediaError MediaStore)
    → Numbered s.tasks
    → KeepsNumbers x
    → KeepsNumbers (ignore_missing s x)
unfolding KeepsNumbers
ignore_missing-KeepsNumbers s (ok s') h k = k
ignore_missing-KeepsNumbers s (err record_not_found) h k = h
ignore_missing-KeepsNumbers s (err e) h k = ground arith

complete_task_of-KeepsNumbers :
    (asset : MediaAsset) (now : ℕ) (s : MediaStore)
    → Numbered s.tasks
    → KeepsNumbers (complete_task_of asset now s)
complete_task_of-KeepsNumbers asset now s h =
    either-KeepsNumbers (is_empty (trim_space asset.task_run_id)) _ _ (committed-KeepsNumbers s h) (
      ignore_missing-KeepsNumbers s _ h
        (complete_task-KeepsNumbers asset.task_run_id asset.kind now s h))

pub commit-KeepsNumbers :
    (job : MaterializationJob) (object : MediaObject) (now : ℕ) (s : MediaStore)
    → Numbered s.tasks
    → KeepsNumbers (commit_materialization job object now s)
unfolding commit_materialization
commit-KeepsNumbers job object now s h =
    then-KeepsNumbers _ _
      (then-KeepsNumbers _ _
        (then-KeepsNumbers _ _ (left-KeepsNumbers s _ h (ground arith))
          (λ s1 h1. left-KeepsNumbers s1 _ h1 (create_object-Leaves object s1)))
        (λ s2 h2. left-KeepsNumbers s2 _ h2 (
          mark_available-Leaves job.asset_id object.id object.content_type object.sha256
            object.byte_size now s2)))
      (λ s3 h3.
        found_or-KeepsNumbers _ (first_where (asset_is job.asset_id) s3.assets) _
          (λ asset f. complete_task_of-KeepsNumbers asset now s3 h3))
