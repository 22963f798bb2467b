-- ===== src/Tasks/Records/System.antt =====
-- The store under any sequence of calls (db/task.go), and what each call does to the runs' numbers of
-- events.
use relay_gateway.Common.Base.{
  ℕ, ◌≡◌, refl, ap, inl, inr, Bool, false, Option, none, some, List, [], ◌∷◌, if◌then◌else◌,
  Bool-cases, arith,
}
use relay_gateway.Common.Text.{Text, text_eq, text_eq_iff, text_eq_refl}
use relay_gateway.Tasks.Runs.{TaskRun, has_id}
use relay_gateway.Tasks.Runs.Advance.{Advances}
use relay_gateway.Tasks.Runs.Batch.{TaskAttempt}
use relay_gateway.Tasks.Runs.System.{Pointwise, apply_op}
use relay_gateway.Tasks.Runs.System as RunSystem
use relay_gateway.Tasks.Records.{
  update_run, update_projection, update_submission_state, update_result, update_provider_task_id,
  record_task_alias, append_attempt, append_event,
}
use relay_gateway.Tasks.RunStore.{TaskStore, find_run, insert_run, text_lt, create_task_run}

pub data Call : Type 0 where
  creates projects : TaskRun → Call
  sets_submission : Text → Text → Text → Call
  sets_result : Text → Text → Bool → Call
  sets_provider : Text → Text → Call
  records_alias : Text → Text → Text → Call
  appends_attempt : TaskAttempt → Call
  appends_event : Text → Text → Text → Call
  on_runs : RunSystem.Op → Call

-- A call with the time at which it runs.
unfoldable pub apply_call : TaskStore → Call → ℕ → TaskStore
apply_call s (creates run) now = (create_task_run run now s).0
apply_call s (projects run) now = (update_projection run now s).0
apply_call s (sets_submission id state task_error) now =
    (update_submission_state id state task_error now s).0
apply_call s (sets_result id body truncated) now = (update_result id body truncated now s).0
apply_call s (sets_provider id provider) now = (update_provider_task_id id provider now s).0
apply_call s (records_alias id lookup source) now = (record_task_alias id lookup source s).0
apply_call s (appends_attempt attempt) now = (append_attempt attempt now s).0
apply_call s (appends_event id event_type payload) now =
    (append_event id event_type payload now s).0
apply_call s (on_runs op) now = record s { runs = (apply_op s.runs op now).0 }

unfoldable pub run_calls : TaskStore → List (Call × ℕ) → TaskStore
run_calls s [] = s
run_calls s ((call, now) ∷ calls) = run_calls (apply_call s call now) calls

-- How many events the run with an id has had.
abbrev pub event_count : Option TaskRun → Option ℕ
event_count none = none
event_count (some r) = some r.event_sequence

unfoldable pub sequence_at : Text → List TaskRun → Option ℕ
sequence_at id rs = event_count (find_run id rs)

pub sequence_at-found :
    (id : Text) (rs : List TaskRun) (o : Option TaskRun)
    → find_run id rs ≡ o
    → sequence_at id rs ≡ event_count o
unfolding sequence_at
sequence_at-found id rs o e = ap (λ x. event_count x) e

pub find_run-id :
    (id : Text) (rs : List TaskRun) (r : TaskRun) → find_run id rs ≡ some r → r.id ≡ id
unfolding find_run
find_run-id id [] r f = cc
find_run-id id (x ∷ rs) r f = elim (Bool-cases (has_id id x)) [
  | inl e ↦ ground (arith, text_eq_iff x.id id)
  | inr e ↦ ground (arith, find_run-id id rs r)
]

-- An update that leaves the id and the number of events of the row.
pub sequence_at-update_run :
    (j id : Text) (f : TaskRun → TaskRun) (rs : List TaskRun)
    → ((r : TaskRun) → (f r).id ≡ r.id)
    → ((r : TaskRun) → (f r).event_sequence ≡ r.event_sequence)
    → sequence_at j (update_run id f rs).0 ≡ sequence_at j rs
unfolding sequence_at find_run update_run
sequence_at-update_run j id f [] h k = refl
sequence_at-update_run j id f (r ∷ rs) h k = elim (Bool-cases (has_id id r)) [
  | inl e ↦ elim (Bool-cases (has_id j r)) [
    | inl q ↦ rw (e, h r, q) (ap some (k r))
    | inr q ↦ rw (e, h r, q) refl
  ]
  | inr e ↦ elim (Bool-cases (has_id j r)) [
    | inl q ↦ rw (e, q) refl
    | inr q ↦ rw (e, q) (sequence_at-update_run j id f rs h k)
  ]
]

-- An update that changes the number of events of one run.
pub sequence_at-counted :
    (id : Text) (f : TaskRun → TaskRun) (rs : List TaskRun) (r : TaskRun)
    → ((r : TaskRun) → (f r).id ≡ r.id)
    → find_run id rs ≡ some r
    → sequence_at id (update_run id f rs).0 ≡ some (f r).event_sequence
unfolding sequence_at find_run update_run
sequence_at-counted id f [] r h e = cc
sequence_at-counted id f (x ∷ rs) r h e = elim (Bool-cases (has_id id x)) [
  | inl q ↦
      rw (q, h x, q)
        (ap (λ o. event_count o)
          (ap (λ o. elim o [ none ↦ none | some y ↦ some (f y) ]) (rw q at e)))
  | inr q ↦ rw (q, q) (sequence_at-counted id f rs r h (rw q at e))
]

pub sequence_at-other :
    (j id : Text) (f : TaskRun → TaskRun) (rs : List TaskRun)
    → ((r : TaskRun) → (f r).id ≡ r.id)
    → text_eq id j ≡ false
    → sequence_at j (update_run id f rs).0 ≡ sequence_at j rs
unfolding sequence_at find_run update_run
sequence_at-other j id f [] h d = refl
sequence_at-other j id f (r ∷ rs) h d = elim (Bool-cases (has_id id r)) [
  | inl e ↦ rw (e, h r, (text_eq_iff r.id id).0 e, d) refl
  | inr e ↦ elim (Bool-cases (has_id j r)) [
    | inl q ↦ rw (e, q) refl
    | inr q ↦ rw (e, q) (sequence_at-other j id f rs h d)
  ]
]

-- A new run.
pub sequence_at-insert_run :
    (j : Text) (run : TaskRun) (rs : List TaskRun)
    → find_run run.id rs ≡ none
    → sequence_at j (insert_run run rs)
      ≡ (if text_eq run.id j then some run.event_sequence else sequence_at j rs)
unfolding sequence_at find_run insert_run
sequence_at-insert_run j run [] h = ground arith
sequence_at-insert_run j run (r ∷ rs) h = elim (Bool-cases (text_lt run.id r.id)) [
  | inl e ↦ rw e (ground arith)
  | inr e ↦ rw e (elim (Bool-cases (has_id j r)) [
    | inr q ↦ rw q (sequence_at-insert_run j run rs (ground arith))
    | inl q ↦ ground (arith, text_eq_iff r.id j, text_eq_iff run.id j, text_eq_refl run.id)
  ])
]

pub sequence_at-Pointwise :
    (j : Text) (t t' : List TaskRun) → Pointwise Advances t t' → sequence_at j t' ≡ sequence_at j t
unfolding sequence_at find_run
sequence_at-Pointwise j [] [] p = refl
sequence_at-Pointwise j [] (r' ∷ t') p = elim p [ ]
sequence_at-Pointwise j (r ∷ t) [] p = elim p [ ]
sequence_at-Pointwise j (r ∷ t) (r' ∷ t') p = elim (Bool-cases (has_id j r)) [
  | inl q ↦ rw (p.0.same_id, q) (ap some p.0.same_events)
  | inr q ↦ rw (p.0.same_id, q) (sequence_at-Pointwise j t t' p.1)
]
