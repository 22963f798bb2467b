-- ===== src/Tasks/Records/Events.antt =====
-- The events of a run are numbered without gaps (db/task.go, `AppendTaskEvent`).
use relay_gateway.Common.Base.{
  ℕ, zero, suc, ◌≡◌, refl, Option, none, some, List, [], ◌∷◌, ◌++◌, if◌then◌else◌, arith,
}
use native.Mathlib.Numerals.{unary_clauses}
use relay_gateway.Common.Text.{Text, text_eq, text_eq_refl}
use relay_gateway.Tasks.RunStore.{TaskStore, TaskEvent}
use relay_gateway.Tasks.Records.System.{Call, apply_call, run_calls, sequence_at}
use relay_gateway.Tasks.Records.Moves.{
  Moves, stays, is_new, counts, elsewhere, apply_call-Moves, first_number,
}

-- The numbers of the events of a run, oldest first.
unfoldable pub numbers_of : Text → List TaskEvent → List ℕ
numbers_of id [] = []
numbers_of id (e ∷ es) =
    let rest = numbers_of id es in if text_eq e.task_run_id id then e.sequence ∷ rest else rest

-- 1, 2, ..., n.
abbrev pub one_to : ℕ → List ℕ
one_to zero = []
one_to (suc n) = one_to n ++ suc n ∷ []

abbrev pub number_or_zero : Option ℕ → ℕ
number_or_zero none = 0
number_or_zero (some n) = n

-- The events of every run are numbered from 1 up to the count that the run stores.
abbrev pub Numbered : TaskStore → Type 0
Numbered s = (id : Text) → numbers_of id s.events ≡ one_to (number_or_zero (sequence_at id s.runs))

-- The runs that are created have no events yet.
abbrev pub StartAtZero : List (Call × ℕ) → Type 0
StartAtZero [] = Unit {0}
StartAtZero ((call, now) ∷ calls) = (first_number call ≡ 0) × StartAtZero calls

numbers_of-append :
    (id : Text) (xs : List TaskEvent) (e : TaskEvent)
    → numbers_of id (xs ++ e ∷ [])
      ≡ (if text_eq e.task_run_id id then numbers_of id xs ++ e.sequence ∷ [] else numbers_of id xs)
unfolding numbers_of
numbers_of-append id [] e = ground arith
numbers_of-append id (x ∷ xs) e = ground (arith, numbers_of-append id xs e)

pub Moves-Numbered :
    (id : Text) (n : ℕ) (s s' : TaskStore)
    → Moves id n s s'
    → n ≡ 0
    → numbers_of id s.events ≡ one_to (number_or_zero (sequence_at id s.runs))
    → numbers_of id s'.events ≡ one_to (number_or_zero (sequence_at id s'.runs))
Moves-Numbered id n s s' (stays q e) z h = rw (q, e) h
Moves-Numbered id n s s' (is_new q r e) z h = rw (e, r, z) (rw q at h)
Moves-Numbered id n s s' (counts k e q r p i m) z h =
    rw (p, numbers_of-append id s.events e, i, text_eq_refl id, h, q, r, m)
      (simp unary_clauses refl)
Moves-Numbered id n s s' (elsewhere e q p d) z h = rw (p, numbers_of-append id s.events e, d, q) h

-- The calls of this part keep the numbers, where runs are created without events.
pub run_calls-Numbered :
    (s : TaskStore) (calls : List (Call × ℕ))
    → Numbered s
    → StartAtZero calls
    → Numbered (run_calls s calls)
unfolding run_calls
run_calls-Numbered s [] h z = h
run_calls-Numbered s ((call, now) ∷ calls) h z =
    run_calls-Numbered (apply_call s call now) calls
      (λ id. Moves-Numbered id (first_number call) s _ (apply_call-Moves id s call now) z.0 (h id))
      z.1
