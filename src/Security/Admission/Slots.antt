-- ===== src/Security/Admission/Slots.antt =====
-- No client ever has more than five attempts under way or failed (security/admission.go).
use relay_gateway.Common.Base.{
  ℕ, zero, suc, ◌+◌, ◌≤◌, ◌≡◌, refl, Bool, false, Option, List, [], ◌∷◌, arith, ◌==◌, if◌then◌else◌,
}
use relay_gateway.Common.Lists.{length}
use relay_gateway.Common.Text.{Text}
use relay_gateway.Security.Admission.{
  LoginAttempts, deref, admit, admitted, refused, Admission, begin_login_attempt, finish,
  finish_attempt, LoginAttempt,
}
use relay_gateway.Security.Admission.Buckets.{deref-IsWithin}
use relay_gateway.Security.Admission.Gate.{
  Gate, Call, begins, finishes, let_in, finish_at, step, run, empty_gate, count,
}
use relay_gateway.Security.Admission.Account.{Ok}
use relay_gateway.Security.Admission.Begin.{
  more, BegunOk, begin-BegunOk, finish_attempt-Ok, Ok-cong,
}

-- No attempt in the list has finished, and the table counts them.
abbrev AllOpen : List LoginAttempt → Type 0
AllOpen [] = Unit {0}
AllOpen (a ∷ rest) = (a.done ≡ false) × AllOpen rest

record Inv (g : Gate) : Type 0 where
  ok : Ok g.table (λ x. count x g.pending)
  fresh : AllOpen g.pending

finish_open :
    (t : LoginAttempts) (a : LoginAttempt) (o : Option Bool) (now : ℕ)
    → a.done ≡ false
    → (finish t a o now).0 ≡ finish_attempt t a o now
unfolding finish
finish_open t a o now e = rw e refl

finish_at-Inv :
    (i : ℕ) (o : Option Bool) (now : ℕ) (t : LoginAttempts) (rest : List LoginAttempt)
    (extra : ℕ → ℕ)
    → Ok t (λ x. extra x + count x rest)
    → AllOpen rest
    → let g = finish_at i o now t rest in
      Ok g.table (λ x. extra x + count x g.pending) × AllOpen g.pending
unfolding finish_at
finish_at-Inv i o now t [] extra ok fresh = (ok, fresh)
finish_at-Inv zero o now t (a ∷ rest) extra ok fresh = (
  rw (finish_open t a o now fresh.0) (
      finish_attempt-Ok t a o now _
        (Ok-cong t _ (more a.bucket (λ x. extra x + count x rest)) (λ x. omega arith) ok)),
  fresh.1,
)
finish_at-Inv (suc i) o now t (a ∷ rest) extra ok fresh =
    let (ok', fresh') =
      finish_at-Inv i o now t rest (λ x. extra x + (if a.bucket == x then 1 else 0))
        (Ok-cong t _ _ (λ x. omega arith) ok) fresh.1 in
    (Ok-cong _ _ _ (λ x. omega arith) ok', (fresh.0, fresh'))

-- An attempt that was let in is not finished.
abbrev BegunOpen : Admission → Type 0
BegunOpen (admitted a) = a.done ≡ false
BegunOpen (refused wait) = Unit

begin-BegunOpen :
    (t : LoginAttempts) (key : Text) (now : ℕ) → BegunOpen (begin_login_attempt t key now).1
unfolding begin_login_attempt admit
begin-BegunOpen t key now = ground arith

begun-Inv :
    (r : LoginAttempts × Admission) (pending : List LoginAttempt)
    → BegunOk r (λ x. count x pending)
    → AllOpen pending
    → BegunOpen r.1
    → Inv (record { table = r.0; pending = let_in r.1 pending })
begun-Inv (t, admitted a) pending ok fresh open_ = record { ok = ok; fresh = (open_, fresh) }
begun-Inv (t, refused wait) pending ok fresh open_ = record { ok = ok; fresh = fresh }

step-Inv : (g : Gate) (c : Call) → Inv g → Inv (step g c)
unfolding step
step-Inv g (begins key now) v =
    begun-Inv (begin_login_attempt g.table key now) g.pending
      (begin-BegunOk g.table key now (λ x. count x g.pending) v.ok) v.fresh
      (begin-BegunOpen g.table key now)
step-Inv g (finishes i o now) v =
    let (ok, fresh) =
      finish_at-Inv i o now g.table g.pending (λ x. 0)
        (Ok-cong g.table (λ x. count x g.pending) (λ x. 0 + count x g.pending) (λ x. omega arith)
          v.ok)
        v.fresh in
    record { ok = Ok-cong _ _ _ (λ x. omega arith) ok; fresh = fresh }

run-Inv : (g : Gate) (cs : List Call) → Inv g → Inv (run g cs)
unfolding run
run-Inv g [] v = v
run-Inv g (c ∷ cs) v = run-Inv (step g c) cs (step-Inv g c v)

-- After any history of calls that begin, finish or cancel attempts, at any times and for any clients,
-- the attempts under way in one bucket and its recorded failures are at most five together.
pub at_most_five :
    (cs : List Call) (a : ℕ)
    → let g = run empty_gate cs in length (deref g.table.heap a).failures + count a g.pending ≤ 5
unfolding empty_gate
at_most_five cs a =
    let v =
      run-Inv empty_gate cs
        (record { ok = record { within = tt; addressed = tt; counted = λ x. refl }; fresh = tt }) in
    omega (arith, v.ok.counted a, deref-IsWithin (run empty_gate cs).table.heap a v.ok.within)
