-- ===== src/Dispatch/Breaker/System.antt =====
-- A breaker together with the leases that it has handed out (service/dispatcher.go), as a system of
-- calls: `tryAcquireChannel`, `finish` of any outstanding lease, `ResetBreaker`.
use relay_gateway.Common.Base.{ℕ, zero, suc, Option, none, some, List, [], ◌∷◌}
use relay_gateway.Common.Text.{Text}
use relay_gateway.Dispatch.Breaker.{
  Breaker, Outcome, Attempt, new_breaker, finish, reset, try_acquire,
}

-- A breaker with the leases that it has handed out, newest first.
pub record Sys : Type 0 where
  pub breaker : Breaker
  pub leases : List Attempt

-- A caller that takes a lease, a lease that finishes (by its place), or a saved channel.
pub data Event : Type 0 where
  acquires : Text → ℕ → Event
  finishes : ℕ → Outcome → ℕ → Event
  resets : Event

unfoldable pub add_lease : Option Attempt → List Attempt → List Attempt
add_lease none ls = ls
add_lease (some a) ls = a ∷ ls

unfoldable pub finish_at : ℕ → Outcome → ℕ → List Attempt → Breaker → List Attempt × Breaker
finish_at i o now [] st = ([], st)
finish_at zero o now (a ∷ ls) st = let (a', st') = finish a o now st in (a' ∷ ls, st')
finish_at (suc i) o now (a ∷ ls) st = let (ls', st') = finish_at i o now ls st in (a ∷ ls', st')

unfoldable pub step : Sys → Event → Sys
step s (acquires channel_id now) =
    let (lease, st) = try_acquire channel_id now s.breaker in
    record { breaker = st; leases = add_lease lease s.leases }
step s (finishes i o now) =
    let (ls, st) = finish_at i o now s.leases s.breaker in record { breaker = st; leases = ls }
step s resets = record s { breaker = reset s.breaker }

unfoldable pub run : Sys → List Event → Sys
run s [] = s
run s (e ∷ es) = run (step s e) es

unfoldable pub start : Sys
start = record { breaker = new_breaker; leases = [] }
