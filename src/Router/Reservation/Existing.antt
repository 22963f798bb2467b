-- ===== src/Router/Reservation/Existing.antt =====
-- What a reservation leaves, and a reservation of a run that is there (router/profile_idempotency.go).
use relay_gateway.Common.Base.{
  ℕ, ◌≡◌, refl, sym, ◌∙◌, inl, inr, Bool, true, false, not, ◌&&◌, ◌||◌, Option, none, some, List,
  [], ◌∷◌, Bool-cases, Option-cases, arith,
}
use relay_gateway.Common.Results.{Result, ok, err}
use relay_gateway.Common.Text.{Text, text_eq, text_eq_refl, is_empty, trim_space}
use relay_gateway.Tasks.Runs.{TaskRun}
use relay_gateway.Tasks.RunStore.{
  TaskStore, RecordError, find_run, text_lt, insert_run, create_task_run, with_defaults,
  is_retention, get_task_run, or_not_found,
}
use relay_gateway.Router.Reservation.{
  Submission, ReserveError, reservation_id, reserved_run, check_existing, after_create,
  reserve_task_run,
}

-- Two submissions of one request, perhaps by other channels or at other times.
pub record SameRequest (sub sub' : Submission) : Type 0 where
  pub operation : sub'.operation ≡ sub.operation
  pub key : sub'.idempotency_key ≡ sub.idempotency_key
  pub fingerprint : sub'.fingerprint ≡ sub.fingerprint

-- A run that belongs to a request.
pub record IsOf (sub : Submission) (run : TaskRun) : Type 0 where
  pub key : text_eq run.idempotency_key sub.idempotency_key ≡ true
  pub fingerprint : text_eq run.request_fingerprint sub.fingerprint ≡ true
  pub operation : text_eq run.operation sub.operation ≡ true

abbrev pub id_of : (Text → Text) → Submission → Text
id_of sha sub = trim_space (reservation_id sha sub.operation sub.idempotency_key sub.fingerprint)

find_run-insert_run :
    (run : TaskRun) (rs : List TaskRun)
    → find_run run.id rs ≡ none
    → find_run run.id (insert_run run rs) ≡ some run
unfolding find_run insert_run
find_run-insert_run run [] e = rw (text_eq_refl run.id) refl
find_run-insert_run run (r ∷ rs) e = elim (Bool-cases (text_lt run.id r.id)) [
  | inl q ↦ rw (q, text_eq_refl run.id) refl
  | inr q ↦ ground (arith, q, find_run-insert_run run rs)
]

-- What a reservation leaves.
unfoldable pub Reserves :
    (Text → Text)
    → Submission
    → TaskStore
    → TaskStore × Result ReserveError (TaskRun × Bool)
    → Type 0
Reserves sha sub s (s', ok (run, made)) =
    (find_run (id_of sha sub) s'.runs ≡ some run) × IsOf sub run
Reserves sha sub s (s', err e) = s' ≡ s

check_existing-Reserves :
    (sha : Text → Text) (sub : Submission) (s : TaskStore) (o : Option TaskRun)
    → find_run (id_of sha sub) s.runs ≡ o
    → Reserves sha sub s (s, check_existing sub (or_not_found o))
unfolding Reserves
check_existing-Reserves sha sub s none f = refl
check_existing-Reserves sha sub s (some run) f =
    elim (Bool-cases (text_eq run.idempotency_key sub.idempotency_key)) [
      | inr e ↦ rw e refl
      | inl e ↦ elim (Bool-cases (text_eq run.request_fingerprint sub.fingerprint)) [
        | inr g ↦ rw (e, g) refl
        | inl g ↦ elim (Bool-cases (text_eq run.operation sub.operation)) [
          | inr h ↦ rw (e, g, h) refl
          | inl h ↦ rw (e, g, h) (f, record { key = e; fingerprint = g; operation = h })
        ]
      ]
    ]

-- How a creation ends, by what was there.
data Creates (run : TaskRun) (s : TaskStore) : TaskStore × Result RecordError TaskRun → Type 0 where
  refused : (e : RecordError) → Creates run s (s, err e)
  inserted :
      find_run run.id s.runs ≡ none
      → Creates run s (record s { runs = insert_run run s.runs }, ok run)

create_task_run-Creates :
    (run : TaskRun) (now : ℕ) (s : TaskStore)
    → Creates (with_defaults run now) s (create_task_run run now s)
unfolding create_task_run
create_task_run-Creates run now s = elim (Bool-cases (is_empty (trim_space run.id))) [
  | inl e ↦ rw e (refused _)
  | inr e ↦
      rw e
        (elim (Bool-cases
          (not (is_empty run.media_retention) && not (is_retention run.media_retention))) [
            | inl q ↦ rw q (refused _)
            | inr q ↦ rw q (elim (Option-cases (find_run (trim_space run.id) s.runs)) [
              | inr (r, f) ↦ rw f (refused _)
              | inl f ↦ rw f (inserted f)
            ])
          ])
]

after_create-Reserves :
    (sha : Text → Text) (sub : Submission) (now : ℕ) (s : TaskStore)
    (x : TaskStore × Result RecordError TaskRun)
    → Creates (with_defaults (reserved_run sha sub now) now) s x
    → Reserves sha sub s
        (after_create sub (reservation_id sha sub.operation sub.idempotency_key sub.fingerprint) x)
unfolding get_task_run Reserves
after_create-Reserves sha sub now s _ (refused e) =
    check_existing-Reserves sha sub s (find_run (id_of sha sub) s.runs) refl
after_create-Reserves sha sub now s _ (inserted f) = (
  find_run-insert_run (with_defaults (reserved_run sha sub now) now) s.runs f,
  record {
    key = text_eq_refl sub.idempotency_key;
    fingerprint = text_eq_refl sub.fingerprint;
    operation = text_eq_refl sub.operation;
  },
)

pub reserve-Reserves :
    (sha : Text → Text) (sub : Submission) (now : ℕ) (s : TaskStore)
    → Reserves sha sub s (reserve_task_run sha sub now s)
unfolding reserve_task_run Reserves
reserve-Reserves sha sub now s =
    elim (Bool-cases
      (is_empty (trim_space sub.idempotency_key) || is_empty (trim_space sub.fingerprint))) [
        | inl e ↦ rw e refl
        | inr e ↦ rw e (
            after_create-Reserves sha sub now s _
              (create_task_run-Creates (reserved_run sha sub now) now s))
      ]

-- Where the run is there, nothing is created.
pub existing_kept :
    (sha : Text → Text) (sub : Submission) (now : ℕ) (s : TaskStore) (run : TaskRun)
    → find_run (id_of sha sub) s.runs ≡ some run
    → is_empty (trim_space sub.idempotency_key) ≡ false
    → is_empty (trim_space sub.fingerprint) ≡ false
    → reserve_task_run sha sub now s ≡ (s, check_existing sub (ok run))
unfolding reserve_task_run get_task_run
existing_kept sha sub now s run f k p =
    rw (k, p)
      (kept (create_task_run (reserved_run sha sub now) now s)
        (create_task_run-Creates (reserved_run sha sub now) now s))
  where
    kept :
        (x : TaskStore × Result RecordError TaskRun)
        → Creates (with_defaults (reserved_run sha sub now) now) s x
        → after_create sub (reservation_id sha sub.operation sub.idempotency_key sub.fingerprint) x
          ≡ (s, check_existing sub (ok run))
    kept _ (refused e) = rw f refl
    kept _ (inserted g) = elim (some_none (sym f ∙ g)) [ ]
      where
        some_none : some run ≡ none → ⊥
        some_none e = cc
