-- ===== src/Polling/Wait/Decides.antt =====
-- What the loop of `gateway_wait` decides (protocol/async.go, `wait`).
use native.Mathlib.Nat.{add-zero}
use relay_gateway.Common.Base.{
  ℕ, zero, suc, ◌+◌, ◌-◌, ◌<◌, ◌==◌, ◌≡◌, ◌≢◌, refl, sym, subst, ◌∙◌, ◌⊎◌, inl, Bool, true, false,
  Option, none, some, List, [], arith,
}
use relay_gateway.Common.Int.{pos_part}
use relay_gateway.Common.Text.{Text, is_empty, trim_space}
use relay_gateway.Polling.Wait.{
  Response, Poll, Surroundings, PollAttempt, Waited, Verdict, goes_on, succeeds, fails, verdict,
  deadline, pause, Step, stop, next, wait_step, wait_loop, wait, exhausted,
}

abbrev pub is_undecided : Verdict → Bool
is_undecided (goes_on e) = true
is_undecided succeeds = false
is_undecided fails = false

-- Poll `k` leaves the task undecided and is followed by another one.
pub record Continues (p : Poll) (env : Surroundings) (k : ℕ) : Type 0 where
  pub live : env.ctx_err k ≡ none
  pub early : env.now k < deadline p env
  pub undecided : is_undecided (verdict p (env.poll_once k)) ≡ true
  pub rested : pause p env k ≡ none

abbrev is_next : Step → Bool
is_next (stop r) = false
is_next (next last attempts) = true

wait_step-next :
    (k : ℕ) (p : Poll) (env : Surroundings) (is_last : Bool) (last : Option Text)
    (attempts : List PollAttempt)
    → Continues p env k
    → is_next (wait_step p env k is_last last attempts) ≡ true
unfolding wait_step
wait_step-next k p env is_last last attempts c = ground arith

abbrev resume : ℕ → ℕ → Poll → Surroundings → Step → Waited
resume left k p env st = elim st [
  | stop r ↦ r
  | next last' attempts' ↦ wait_loop left (k + 1) p env last' attempts'
]

resume-next :
    (left k : ℕ) (p : Poll) (env : Surroundings) (st : Step)
    → is_next st ≡ true
    → (last' : Option Text) × (attempts' : List PollAttempt) × (resume left k p env st
        ≡ wait_loop left (k + 1) p env last' attempts')
resume-next left k p env (stop r) e = cc
resume-next left k p env (next last' attempts') e = (last', attempts', refl)

-- The loop ends with the answer of poll `k`.
record Succeeds (p : Poll) (env : Surroundings) (k : ℕ) (r : Waited) : Type 0 where
  answered : r.final ≡ some (env.poll_once k).response
  counted : r.polls ≡ k
  clean : r.error ≡ none

abbrev StepSucceeds : Poll → Surroundings → ℕ → Step → Type 0
StepSucceeds p env k (stop r) = Succeeds p env k r
StepSucceeds p env k (next last attempts) = ⊥

wait_step-stop :
    (k : ℕ) (p : Poll) (env : Surroundings) (is_last : Bool) (last : Option Text)
    (attempts : List PollAttempt)
    → env.ctx_err k ≡ none
    → env.now k < deadline p env
    → verdict p (env.poll_once k) ≡ succeeds
    → StepSucceeds p env k (wait_step p env k is_last last attempts)
unfolding wait_step
wait_step-stop k p env is_last last attempts c n v = ground arith

resume-stop :
    (left k : ℕ) (p : Poll) (env : Surroundings) (st : Step)
    → StepSucceeds p env k st
    → Succeeds p env k (resume left k p env st)
resume-stop left k p env (stop r) e = e
resume-stop left k p env (next last' attempts') e = elim e [ ]

wait_loop-suc :
    (left k : ℕ) (p : Poll) (env : Surroundings) (last : Option Text) (attempts : List PollAttempt)
    → wait_loop (suc left) k p env last attempts
      ≡ resume left k p env (wait_step p env k (left == 0) last attempts)
unfolding wait_loop
wait_loop-suc left k p env last attempts = refl

wait_loop-Succeeds :
    (n left k : ℕ) (p : Poll) (env : Surroundings) (last : Option Text)
    (attempts : List PollAttempt)
    → n < left
    → ((j : ℕ) → j < n → Continues p env (k + j))
    → env.ctx_err (k + n) ≡ none
    → env.now (k + n) < deadline p env
    → verdict p (env.poll_once (k + n)) ≡ succeeds
    → Succeeds p env (k + n) (wait_loop left k p env last attempts)
wait_loop-Succeeds n zero k p env last attempts h before c d v = absurd (omega arith)
wait_loop-Succeeds zero (suc left) k p env last attempts h before c d v =
    let e : k + 0 ≡ k = omega arith in
    rw e (
      unfold wait_loop in
      resume-stop left k p env _
        (wait_step-stop k p env (left == 0) last attempts (rw e at c) (rw e at d) (rw e at v)))
wait_loop-Succeeds (suc n) (suc left) k p env last attempts h before c d v =
    let here : Continues p env k = rw (add-zero k) at (before 0 (omega arith)) in
    let (last', attempts', e) =
      resume-next left k p env (wait_step p env k (left == 0) last attempts)
        (wait_step-next k p env (left == 0) last attempts here) in
    let move : k + suc n ≡ k + 1 + n = omega arith in
    subst (Succeeds p env (k + suc n)) (sym (wait_loop-suc left k p env last attempts ∙ e)) (
      rw move (
        wait_loop-Succeeds n left (k + 1) p env last' attempts' (omega arith)
          (λ j lt. subst (Continues p env) (omega arith) (before (suc j) (omega arith)))
          (rw move at c) (rw move at d) (rw move at v)))

-- If the first `n` polls leave the task undecided, with the context live, the deadline ahead and no
-- interrupted sleep, and poll `n + 1` reports success within the attempts and the deadline, then the
-- wait returns that answer, after exactly `n + 1` polls and without an error.
pub wait-first_success :
    (n : ℕ) (p : Poll) (env : Surroundings) (accepted : Response)
    → is_empty (trim_space accepted.task_id) ≡ false
    → n < pos_part p.max_attempts
    → ((j : ℕ) → j < n → Continues p env (1 + j))
    → env.ctx_err (1 + n) ≡ none
    → env.now (1 + n) < deadline p env
    → verdict p (env.poll_once (1 + n)) ≡ succeeds
    → let r = wait true (some (some p)) env accepted in
      (r.final ≡ some (env.poll_once (1 + n)).response) × (r.polls ≡ 1 + n) × (r.error ≡ none)
unfolding wait
wait-first_success n p env accepted t h before c d v =
    let s = wait_loop-Succeeds n (pos_part p.max_attempts) 1 p env none [] h before c d v in
    rw (t, wait) (s.answered, s.counted, s.clean)

-- A result without an error carries a success.
abbrev Honest : Poll → Surroundings → Waited → Type 0
Honest p env r =
    (r.error ≢ none)
    ⊎ ((r.final ≡ some (env.poll_once r.polls).response)
        × (verdict p (env.poll_once r.polls) ≡ succeeds))

abbrev StepHonest : Poll → Surroundings → Step → Type 0
StepHonest p env (stop r) = Honest p env r
StepHonest p env (next last attempts) = Unit

wait_step-Honest :
    (k : ℕ) (p : Poll) (env : Surroundings) (is_last : Bool) (last : Option Text)
    (attempts : List PollAttempt)
    → StepHonest p env (wait_step p env k is_last last attempts)
unfolding wait_step
wait_step-Honest k p env is_last last attempts = ground arith

exhausted-Honest :
    (polls : ℕ) (p : Poll) (env : Surroundings) (last : Option Text) (attempts : List PollAttempt)
    → Honest p env (exhausted polls last attempts)
unfolding exhausted
exhausted-Honest polls p env none attempts = inl (λ e. cc)
exhausted-Honest polls p env (some x) attempts = inl (λ e. cc)

resume-Honest :
    (left k : ℕ) (p : Poll) (env : Surroundings) (st : Step)
    → StepHonest p env st
    → ((last' : Option Text) (attempts' : List PollAttempt)
        → Honest p env (wait_loop left (k + 1) p env last' attempts'))
    → Honest p env (resume left k p env st)
resume-Honest left k p env (stop r) h rest = h
resume-Honest left k p env (next last' attempts') h rest = rest last' attempts'

wait_loop-Honest :
    (left k : ℕ) (p : Poll) (env : Surroundings) (last : Option Text) (attempts : List PollAttempt)
    → Honest p env (wait_loop left k p env last attempts)
unfolding wait_loop
wait_loop-Honest zero k p env last attempts = exhausted-Honest (k - 1) p env last attempts
wait_loop-Honest (suc left) k p env last attempts =
    resume-Honest left k p env (wait_step p env k (left == 0) last attempts)
      (wait_step-Honest k p env (left == 0) last attempts)
      (λ last' attempts'. wait_loop-Honest left (k + 1) p env last' attempts')

-- A wait that returns no error returns the answer of its last poll, and the profile counts the status
-- of that answer as a success.
pub wait-no_error :
    (has_querier : Bool) (p : Poll) (env : Surroundings) (accepted : Response)
    → (wait has_querier (some (some p)) env accepted).error ≡ none
    → let r = wait has_querier (some (some p)) env accepted in
      (r.final ≡ some (env.poll_once r.polls).response)
      × (verdict p (env.poll_once r.polls) ≡ succeeds)
unfolding wait
wait-no_error has_querier p env accepted h =
    ground (arith, wait_loop-Honest (pos_part p.max_attempts) 1 p env none [])
