-- ===== src/Router/Locks.antt =====
-- The locks that keep two submissions of one key apart within a process (router/profile_idempotency.go,
-- `profileIdempotencyLocks`). An item of the map is a pointer, so items stand on a heap; the map and the
-- heap are functions. What a goroutine does between two points where another may run is one step: a
-- section under the mutex, a send to the semaphore, a receive from it.
pub mod Counting
pub mod Holding
pub mod Entering
pub mod Exclusion
pub mod Tests
use relay_gateway.Common.Base.{
  ℕ, ◌+◌, ◌-◌, ◌≡◌, Bool, true, false, not, ◌&&◌, Option, none, some, List, [], ◌∷◌, ◌==◌,
  if◌then◌else◌,
}
use relay_gateway.Common.Lists.{get_elem?, set}
use relay_gateway.Common.Text.{Text, text_eq, is_empty, trim_space}

-- `profileIdempotencyLock`: whether the semaphore of capacity 1 is taken.
pub record Lock : Type 0 where
  pub full : Bool
  pub refs : ℕ

pub record Locks : Type 0 where
  pub items : Text → Option ℕ
  pub heap : ℕ → Lock
  pub next : ℕ  -- the next address that is free

unfoldable pub no_locks : Locks
no_locks = record { items = λ key. none; heap = λ a. record { full = false; refs = 0 }; next = 0 }

abbrev pub put_item : Text → Option ℕ → (Text → Option ℕ) → Text → Option ℕ
put_item key v items k = if text_eq k key then v else items k

abbrev pub put_lock : ℕ → Lock → (ℕ → Lock) → ℕ → Lock
put_lock a l heap b = if b == a then l else heap b

-- The first section of `acquire`: the item of the key, with one more reference.
abbrev pub refer : Text → Option ℕ → Locks → ℕ × Locks
refer key none s = (
  s.next,
  record s {
    items = put_item key (some s.next) s.items;
    heap = put_lock s.next (record { full = false; refs = 1 }) s.heap;
    next = s.next + 1;
  },
)
refer key (some a) s =
    (a, record s { heap = put_lock a (record (s.heap a) { refs = (s.heap a).refs + 1 }) s.heap })

unfoldable pub enter : Text → Locks → ℕ × Locks
enter key s = refer key (s.items key) s

-- `dropReference`. A reference that is dropped was taken, so the count is not 0 before.
unfoldable pub drop_reference : Text → ℕ → Locks → Locks
drop_reference key a s =
    let refs = (s.heap a).refs - 1 in
    record s {
      heap = put_lock a (record (s.heap a) { refs = refs }) s.heap;
      items = λ k. if refs == 0 then put_item key none s.items k else s.items k;
    }

unfoldable pub fill : ℕ → Bool → Locks → Locks
fill a full s = record s { heap = put_lock a (record (s.heap a) { full = full }) s.heap }

-- Where a goroutine is in `acquire` and the function that it returns: before the semaphore, with it, past
-- it but with its reference, and through.
pub data Phase : Type 0 where
  waiting holding leaving gone : Phase

pub record Holder : Type 0 where
  pub key : Text
  pub address : ℕ
  pub phase : Phase

pub record Process : Type 0 where
  pub locks : Locks
  pub holders : List Holder

abbrev pub with_holder : ℕ → Holder → Phase → Locks → List Holder → Process
with_holder i h phase locks holders = record {
  locks = locks;
  holders = set holders i (record h { phase = phase });
}

abbrev pub entered : Text → List Holder → ℕ × Locks → Process
entered key holders (a, locks) = record {
  locks = locks;
  holders = record { key = key; address = a; phase = waiting } ∷ holders;
}

-- One goroutine goes on. It may give up waiting at any time, since its context may end; with the
-- semaphore it leaves when it is released, or at once where its context has ended.
pub data Step : Process → Process → Type 0 where
  enters :
      (p : Process) (key : Text)
      → is_empty (trim_space key) ≡ false
      → Step p (entered (trim_space key) p.holders (enter (trim_space key) p.locks))
  takes :
      (p : Process) (i : ℕ) (h : Holder)
      → get_elem? p.holders i ≡ some h
      → h.phase ≡ waiting
      → (p.locks.heap h.address).full ≡ false
      → Step p (with_holder i h holding (fill h.address true p.locks) p.holders)
  gives_up :
      (p : Process) (i : ℕ) (h : Holder)
      → get_elem? p.holders i ≡ some h
      → h.phase ≡ waiting
      → Step p (with_holder i h gone (drop_reference h.key h.address p.locks) p.holders)
  gives_back :
      (p : Process) (i : ℕ) (h : Holder)
      → get_elem? p.holders i ≡ some h
      → h.phase ≡ holding
      → Step p (with_holder i h leaving (fill h.address false p.locks) p.holders)
  drops :
      (p : Process) (i : ℕ) (h : Holder)
      → get_elem? p.holders i ≡ some h
      → h.phase ≡ leaving
      → Step p (with_holder i h gone (drop_reference h.key h.address p.locks) p.holders)

-- Any sequence of steps from the empty map.
pub data Reached : Process → Type 0 where
  starts : Reached (record { locks = no_locks; holders = [] })
  continues : (p q : Process) → Reached p → Step p q → Reached q
