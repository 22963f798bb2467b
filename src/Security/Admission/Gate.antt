-- ===== src/Security/Admission/Gate.antt =====
-- The table with the attempts under way, as a system of calls (security/admission.go:
-- `BeginLoginAttempt`, and `Finish` or `Cancel` of any attempt that is not finished).
use relay_gateway.Common.Base.{ℕ, zero, suc, ◌+◌, Bool, Option, List, [], ◌∷◌, ◌==◌, if◌then◌else◌}
use relay_gateway.Common.Text.{Text}
use relay_gateway.Security.Admission.{
  LoginAttempts, LoginAttempt, Admission, admitted, refused, begin_login_attempt, finish,
}

pub record Gate : Type 0 where
  pub table : LoginAttempts
  pub pending : List LoginAttempt

pub data Call : Type 0 where
  begins : Text → ℕ → Call
  finishes : ℕ → Option Bool → ℕ → Call

abbrev pub let_in : Admission → List LoginAttempt → List LoginAttempt
let_in (admitted a) pending = a ∷ pending
let_in (refused wait) pending = pending

-- Finishing the attempt at a place takes it off the list.
unfoldable pub finish_at : ℕ → Option Bool → ℕ → LoginAttempts → List LoginAttempt → Gate
finish_at i o now t [] = record { table = t; pending = [] }
finish_at zero o now t (a ∷ rest) = record { table = (finish t a o now).0; pending = rest }
finish_at (suc i) o now t (a ∷ rest) =
    let g = finish_at i o now t rest in record { table = g.table; pending = a ∷ g.pending }

unfoldable pub step : Gate → Call → Gate
step g (begins key now) =
    let (t, answer) = begin_login_attempt g.table key now in
    record { table = t; pending = let_in answer g.pending }
step g (finishes i o now) = finish_at i o now g.table g.pending

unfoldable pub run : Gate → List Call → Gate
run g [] = g
run g (c ∷ cs) = run (step g c) cs

unfoldable pub empty_gate : Gate
empty_gate = record { table = record { items = []; heap = [] }; pending = [] }

-- The attempts under way at an address.
abbrev pub count : ℕ → List LoginAttempt → ℕ
count a [] = 0
count a (x ∷ xs) = (if x.bucket == a then 1 else 0) + count a xs
