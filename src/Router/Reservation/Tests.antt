-- ===== src/Router/Reservation/Tests.antt =====
-- Reservations at concrete inputs (router/profile_idempotency.go).
use relay_gateway.Common.Base.{ℕ, ◌≡◌, refl, true, false, some, List, [], ◌∷◌}
use relay_gateway.Common.Results.{ok}
use relay_gateway.Common.Text.{Text, codes, text_eq, trim_space, to_lower, one_of, equal_fold}
use relay_gateway.Tasks.Runs.{TaskRun}
use relay_gateway.Tasks.RunStore.{TaskStore, with_defaults, create_task_run, find_run, insert_run}
use relay_gateway.Tasks.Records.System.{Call, appends_event, sets_submission, run_calls}
use relay_gateway.Router.Reservation.{
  Submission, reservation_id, reserved_run, reserve_task_run, caller_idempotency_key,
  has_line_break, can_be_reused,
}
use relay_gateway.Router.Reservation.Once.{GivesRun, reserve-reserve, run_calls-reserve}
use relay_gateway.Router.Reservation.Existing.{SameRequest}

-- A digest that keeps its text.
abbrev sha : Text → Text
sha s = s

abbrev submission : Text → Submission
submission channel = record {
  operation = codes "image_create";
  profile_id = codes "p";
  channel_id = channel;
  revision = 2;
  profile_digest = codes "d";
  media_retention = [];
  polling_mode = codes "background";
  poll = some (record { interval_ms = 2000; max_duration_ms = 60000 });
  task_kind = codes "image";
  idempotency_key = codes "key";
  fingerprint = codes "f1";
  origin_request_id = codes "r";
}

abbrev empty_store : TaskStore
empty_store = record { runs = []; aliases = []; attempts = []; events = []; next_alias = 1 }

abbrev run : TaskRun
run = with_defaults (reserved_run sha (submission (codes "c1")) 5) 5

abbrev reserved : TaskStore
reserved = record empty_store { runs = run ∷ [] }

same_request : SameRequest (submission (codes "c1")) (submission (codes "c2"))
same_request = record { operation = refl; key = refl; fingerprint = refl }

reserved_first :
    reserve_task_run sha (submission (codes "c1")) 5 empty_store ≡ (reserved, ok (run, true))
unfolding reserve_task_run create_task_run reservation_id find_run insert_run text_eq one_of
    trim_space
reserved_first = refl

-- A retry by another channel gets the run of the first.
reserve-reserve_example :
    reserve_task_run sha (submission (codes "c2")) 9 reserved ≡ (reserved, ok (run, false))
reserve-reserve_example =
    reserve-reserve sha (submission (codes "c1")) (submission (codes "c2")) 5 9 empty_store reserved
      run true same_request reserved_first

abbrev between : List (Call × ℕ)
between =
    (sets_submission run.id (codes "accepted") [], 6)
    ∷ (appends_event run.id (codes "sent") [], 7)
    ∷ []

run_calls-reserve_example :
    let t = run_calls reserved between in
    ((reserve_task_run sha (submission (codes "c2")) 9 t).0 ≡ t)
    × GivesRun run.id (reserve_task_run sha (submission (codes "c2")) 9 t).1
run_calls-reserve_example =
    run_calls-reserve sha (submission (codes "c1")) (submission (codes "c2")) 5 9 empty_store
      reserved run true between same_request reserved_first

bad_keys : caller_idempotency_key (codes "a\nb") ≡ []
unfolding caller_idempotency_key has_line_break trim_space
bad_keys = refl

reusable :
    can_be_reused
      (record run { submission_state = codes " Accepted"; provider_task_id = codes "p1" })
    ≡ true
unfolding can_be_reused equal_fold to_lower text_eq trim_space
reusable = refl
