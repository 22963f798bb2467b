-- ===== src/Router/Locks/Tests.antt =====
-- Locks at concrete runs (router/profile_idempotency.go).
use relay_gateway.Common.Base.{ℕ, zero, suc, ◌≡◌, ◌≢◌, refl, true, false, none, some, []}
use relay_gateway.Common.Lists.{get_elem?}
use relay_gateway.Common.Text.{Text, codes, text_eq, trim_space}
use relay_gateway.Router.Locks.{
  no_locks, enter, fill, drop_reference, waiting, holding, leaving, gone, Holder, Process, entered,
  with_holder, enters, takes, gives_up, gives_back, drops, Reached, starts, continues,
}
use relay_gateway.Router.Locks.Exclusion.{mutual_exclusion, no_item_left}

abbrev key : Text
key = codes "k"

abbrev nobody : Process
nobody = record { locks = no_locks; holders = [] }

-- One goroutine enters, then a second one; the first takes the semaphore.
abbrev one : Process
one = entered (trim_space key) [] (enter (trim_space key) no_locks)

abbrev two : Process
two = entered (trim_space key) one.holders (enter (trim_space key) one.locks)

abbrev first : Holder
first = record { key = trim_space key; address = 0; phase = waiting }

abbrev taken : Process
taken = with_holder 1 first holding (fill 0 true two.locks) two.holders

Reached-taken : Reached taken
unfolding no_locks enter text_eq trim_space
Reached-taken =
    continues two taken
      (continues one two (continues nobody one starts (enters nobody key refl))
        (enters one key refl))
      (takes two 1 first refl refl refl)

one_is_not_zero : suc zero ≢ zero
one_is_not_zero e = cc

mutual_exclusion_example : first.phase ≢ holding
unfolding no_locks enter text_eq trim_space
mutual_exclusion_example =
    mutual_exclusion taken 1 0 (record first { phase = holding }) first Reached-taken refl refl
      one_is_not_zero refl refl

-- The second gives up, the first releases.
abbrev alone : Process
alone = with_holder 0 first gone (drop_reference first.key 0 taken.locks) taken.holders

abbrev left : Process
left =
    with_holder 1 (record first { phase = holding }) leaving (fill 0 false alone.locks)
      alone.holders

abbrev through : Process
through =
    with_holder 1 (record first { phase = leaving }) gone (drop_reference first.key 0 left.locks)
      left.holders

Reached-through : Reached through
unfolding no_locks enter text_eq trim_space
Reached-through =
    continues left through
      (continues alone left (continues taken alone Reached-taken (gives_up taken 0 first refl refl))
        (gives_back alone 1 (record first { phase = holding }) refl refl))
      (drops left 1 (record first { phase = leaving }) refl refl)

all_gone : (i : ℕ) (h : Holder) → get_elem? through.holders i ≡ some h → h.phase ≡ gone
unfolding no_locks enter text_eq trim_space
all_gone zero h e = cc
all_gone (suc zero) h e = cc
all_gone (suc (suc i)) h e = cc

no_item_left_example : through.locks.items key ≡ none
no_item_left_example = no_item_left through key Reached-through all_gone
