-- ===== src/Router/Reservation/Once.antt =====
-- A request is reserved once (router/profile_idempotency.go, `reserveProfileTaskRun`).
use relay_gateway.Common.Base.{
  ℕ, ◌≡◌, refl, sym, ap, ◌∙◌, inl, inr, Bool, true, false, some, List, [], Bool-cases, arith,
}
use relay_gateway.Common.Results.{Result, ok, err}
use relay_gateway.Common.Text.{Text, text_eq, is_empty, trim_space}
use relay_gateway.Tasks.Runs.{TaskRun}
use relay_gateway.Tasks.RunStore.{TaskStore, find_run}
use relay_gateway.Tasks.Records.System.{Call, run_calls, find_run-id, sequence_at-found}
use relay_gateway.Tasks.Records.Aliases.{run_calls-Keeps, found_again}
use relay_gateway.Router.Reservation.{Submission, ReserveError, check_existing, reserve_task_run}
use relay_gateway.Router.Reservation.Existing.{
  id_of, reserve-Reserves, Reserves, IsOf, SameRequest, existing_kept,
}

-- A reservation that succeeds was complete.
complete :
    (sha : Text → Text) (sub : Submission) (now : ℕ) (s s' : TaskStore) (x : TaskRun × Bool)
    → reserve_task_run sha sub now s ≡ (s', ok x)
    → (is_empty (trim_space sub.idempotency_key) ≡ false)
      × (is_empty (trim_space sub.fingerprint) ≡ false)
unfolding reserve_task_run
complete sha sub now s s' x e = elim (Bool-cases (is_empty (trim_space sub.idempotency_key))) [
  | inl k ↦ elim (no (ap (λ p. p.1) (rw k at e))) [ ]
  | inr k ↦ elim (Bool-cases (is_empty (trim_space sub.fingerprint))) [
    | inl p ↦ elim (no (ap (λ p. p.1) (rw (k, p) at e))) [ ]
    | inr p ↦ (k, p)
  ]
]
  where
    no : {r : ReserveError} → err r ≡ ok x → ⊥
    no e = cc

existing_again :
    (sha : Text → Text) (sub sub' : Submission) (now later : ℕ) (s s' t : TaskStore)
    (run found : TaskRun) (made : Bool)
    → SameRequest sub sub'
    → reserve_task_run sha sub now s ≡ (s', ok (run, made))
    → find_run (id_of sha sub) t.runs ≡ some found
    → reserve_task_run sha sub' later t ≡ (t, check_existing sub' (ok found))
existing_again sha sub sub' now later s s' t run found made q e f =
    let (k, p) = complete sha sub now s s' (run, made) e in
    existing_kept sha sub' later t found (rw (q.operation, q.key, q.fingerprint) f) (rw q.key k)
      (rw q.fingerprint p)

stored :
    (sha : Text → Text) (sub : Submission) (now : ℕ) (s s' : TaskStore) (run : TaskRun)
    (made : Bool)
    → reserve_task_run sha sub now s ≡ (s', ok (run, made))
    → (find_run (id_of sha sub) s'.runs ≡ some run) × IsOf sub run
unfolding Reserves
stored sha sub now s s' run made e = rw e at (reserve-Reserves sha sub now s)

-- A request that was reserved, and is sent again at once with the same operation, key and fingerprint,
-- gets the same run, which is not created again; the rest of the submission, such as its channel, may
-- differ, and the store stays as it is.
pub reserve-reserve :
    (sha : Text → Text) (sub sub' : Submission) (now later : ℕ) (s s' : TaskStore) (run : TaskRun)
    (made : Bool)
    → SameRequest sub sub'
    → reserve_task_run sha sub now s ≡ (s', ok (run, made))
    → reserve_task_run sha sub' later s' ≡ (s', ok (run, false))
reserve-reserve sha sub sub' now later s s' run made q e =
    let (f, i) = stored sha sub now s s' run made e in
    let same_key : text_eq run.idempotency_key sub'.idempotency_key ≡ true = rw q.key i.key in
    let same_print : text_eq run.request_fingerprint sub'.fingerprint ≡ true =
      rw q.fingerprint i.fingerprint in
    let same_op : text_eq run.operation sub'.operation ≡ true = rw q.operation i.operation in
    existing_again sha sub sub' now later s s' s' run run made q e f
    ∙ (rw (same_key, same_print, same_op) refl)

-- What a later reservation of the request may answer.
abbrev pub GivesRun : Text → Result ReserveError (TaskRun × Bool) → Type 0
GivesRun id (err e) = Unit {0}
GivesRun id (ok (run, made)) = (made ≡ false) × (run.id ≡ id)

check_existing-GivesRun :
    (sub : Submission) (id : Text) (run : TaskRun)
    → run.id ≡ id
    → GivesRun id (check_existing sub (ok run))
check_existing-GivesRun sub id run h = ground arith

-- However the store was used since a request was reserved, a later reservation of the same request leaves
-- the store as it is, and if it answers with a run, that run has the same id and is not reported as
-- created: one request is created once.
pub run_calls-reserve :
    (sha : Text → Text) (sub sub' : Submission) (now later : ℕ) (s s' : TaskStore) (run : TaskRun)
    (made : Bool) (calls : List (Call × ℕ))
    → SameRequest sub sub'
    → reserve_task_run sha sub now s ≡ (s', ok (run, made))
    → let t = run_calls s' calls in
      ((reserve_task_run sha sub' later t).0 ≡ t)
      × GivesRun run.id (reserve_task_run sha sub' later t).1
run_calls-reserve sha sub sub' now later s s' run made calls q e =
    let t = run_calls s' calls in
    let (f, i) = stored sha sub now s s' run made e in
    let (m, g) =
      (run_calls-Keeps [] (id_of sha sub) s' calls).run run.event_sequence
        (sequence_at-found (id_of sha sub) s'.runs (some run) f) in
    let (found, h) = found_again (id_of sha sub) t.runs m g in
    let same =
      find_run-id (id_of sha sub) t.runs found h
      ∙ sym (find_run-id (id_of sha sub) s'.runs run f) in
    rw (existing_again sha sub sub' now later s s' t run found made q e h)
      (refl, check_existing-GivesRun sub' run.id found same)
