-- ===== src/Media/Tests.antt =====
-- Media at concrete inputs (db/media.go).
use relay_gateway.Common.Base.{ℕ, ◌≡◌, ◌≢◌, refl, none, some, List, [], ◌∷◌, arith}
use relay_gateway.Common.Results.{ok, err}
use relay_gateway.Common.Tables.{first_where, count_where, update_where}
use relay_gateway.Common.Text.{Text, codes, text_eq, trim_space, one_of, to_lower}
use relay_gateway.Media.Rows.{
  MediaAsset, MediaObject, MediaStore, asset_gone, asset_is, available, ready, attempt,
}
use relay_gateway.Media.Assets.{
  has_public_id, get_asset_by_link, create_asset, complete_task_run_after_media,
}
use relay_gateway.Media.Deletion.{request_delete}
use relay_gateway.Tasks.Runs.{task_lease_owner, task_status_rank}
use relay_gateway.Media.Materialize.{retry_materialization}
use relay_gateway.Media.DeletionJobs.{claim_deletion, first_due_deletion}
use relay_gateway.Media.System.{
  Call, creates_asset, completes_task, retries_fetching, claims_deletion, call_of, run_calls,
}
use relay_gateway.Tasks.Records.{update_run, has_event, append_event}
use relay_gateway.Tasks.RunStore.{find_run, insert_run, create_task_run}
use relay_gateway.Tasks.Records.System as TaskSystem
use relay_gateway.Tasks.Records.System.{creates, appends_event, sequence_at}
use relay_gateway.Tasks.Records.Tests.{blank_run, empty_store}
use relay_gateway.Tasks.Records.Events.{Numbered, numbers_of}
use relay_gateway.Media.Numbering.{Step, on_tasks, on_media, run_steps, run_steps-Numbered}
use relay_gateway.Media.Revocation.{run_calls-get_asset_by_link}

-- A digest that keeps its text.
abbrev sha : Text → Text
sha s = s

abbrev asset : ℕ → Text → MediaAsset
asset id public_id = record {
  id = id;
  public_id = public_id;
  capability_hash = codes "c";
  capability_ciphertext = [];
  task_run_id = [];
  origin_request_id = [];
  kind = codes "image";
  ordinal = id;
  status = available;
  object_id = codes "o";
  source_kind = codes "url";
  source_locator = [];
  content_type = codes "image/png";
  byte_size = 10;
  sha256 = [];
  display_name = [];
  created_at = 1;
  available_at = some 2;
  expires_at = none;
  delete_requested_at = none;
  deleted_at = none;
  delete_reason = [];
  state_version = 3;
  updated_at = 2;
}

abbrev object : MediaObject
object = record {
  id = codes "o";
  backend = codes "local";
  storage_key = codes "k";
  sha256 = [];
  byte_size = 10;
  content_type = codes "image/png";
  etag = [];
  state = ready;
  ref_count = 2;
  delete_attempts = 0;
  next_retry_at = none;
  last_error = [];
  created_at = 1;
  updated_at = 1;
}

abbrev store : MediaStore
store = record {
  assets = asset 1 (codes "p") ∷ asset 2 (codes "q") ∷ [];
  objects = object ∷ [];
  jobs = [];
  deletions = [];
  tasks = record { runs = []; aliases = []; attempts = []; events = []; next_alias = 1 };
  next_asset = 3;
  next_job = 1;
  next_deletion = 1;
}

abbrev revoked : MediaStore
unfolding request_delete first_where count_where update_where text_eq trim_space
revoked = attempt store (request_delete (codes "p") (codes "unwanted") 5 store)

-- A late download, a retry, and a deletion; the link of the other asset still answers.
abbrev history : List (Call × ℕ)
history =
    (retries_fetching 1, 6)
    ∷ (creates_asset (asset 0 (codes "r")), 7)
    ∷ (claims_deletion (codes "t") (codes "w") 0, 8)
    ∷ []

still_served :
    (a : MediaAsset) × (get_asset_by_link sha (codes "q") (codes "c") revoked ≡ ok a) × (a.id ≡ 2)
unfolding get_asset_by_link first_where text_eq trim_space revoked
still_served = (asset 2 (codes "q"), refl, refl)

gone : get_asset_by_link sha (codes "p") (codes "c") revoked ≡ err asset_gone
unfolding get_asset_by_link first_where text_eq trim_space revoked
gone = refl

abbrev third : MediaAsset
third = record (asset 0 (codes "r")) { id = 3 }

revoked_by : request_delete (codes "p") (codes "unwanted") 5 store ≡ ok revoked
unfolding revoked request_delete first_where count_where update_where text_eq trim_space
revoked_by = refl

third_served : get_asset_by_link sha (codes "r") (codes "c") (run_calls revoked history) ≡ ok third
unfolding revoked run_calls call_of retry_materialization create_asset claim_deletion
    first_due_deletion task_lease_owner get_asset_by_link first_where count_where update_where
    text_eq trim_space
third_served = refl

found_first :
    first_where (has_public_id (trim_space (codes "p"))) store.assets ≡ some (asset 1 (codes "p"))
unfolding first_where text_eq trim_space
found_first = refl

one_row : count_where (asset_is 1) store.assets ≡ 1
unfolding count_where
one_row = refl

run_calls-get_asset_by_link_example : third.id ≢ (asset 1 (codes "p")).id
run_calls-get_asset_by_link_example =
    run_calls-get_asset_by_link store revoked (codes "p") (codes "unwanted") 5 (asset 1 (codes "p"))
      third history sha (codes "r") (codes "c") revoked_by found_first one_row (omega arith)
      third_served

empty-Numbered : Numbered empty_store
unfolding numbers_of sequence_at find_run
empty-Numbered id = refl

abbrev task_medium : MediaAsset
task_medium = record (asset 0 (codes "v")) { task_run_id = codes "a" }

-- A task with one event, and its medium, which completes it.
abbrev task_steps : List (Step × ℕ)
task_steps =
    (on_tasks (creates (blank_run (codes "a"))), 9)
    ∷ (on_tasks (appends_event (codes "a") (codes "created") []), 10)
    ∷ (on_media (creates_asset task_medium), 11)
    ∷ (on_media (completes_task (codes "a") []), 12)
    ∷ (on_tasks (appends_event (codes "a") (codes "seen") []), 13)
    ∷ []

run_steps-Numbered_example :
    Numbered (run_steps (record store { tasks = empty_store }) task_steps).tasks
run_steps-Numbered_example =
    run_steps-Numbered (record store { tasks = empty_store }) task_steps empty-Numbered
      (refl, (refl, (refl, tt)))

three_events :
    numbers_of
      (codes "a")
      (run_steps (record store { tasks = empty_store }) task_steps).tasks.events
    ≡ 1 ∷ 2 ∷ 3 ∷ []
unfolding numbers_of run_steps TaskSystem.apply_call create_task_run append_event find_run
    insert_run update_run has_event text_eq trim_space call_of create_asset
    complete_task_run_after_media count_where task_status_rank one_of to_lower
three_events = refl
