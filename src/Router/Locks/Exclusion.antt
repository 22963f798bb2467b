-- ===== src/Router/Locks/Exclusion.antt =====
-- At most one goroutine holds the lock of a key, and no item outlives its users
-- (router/profile_idempotency.go).
use relay_gateway.Common.Base.{
  ℕ, ◌≡◌, ◌≢◌, refl, sym, ap, ◌∙◌, inl, inr, true, false, none, some, [], arith, Option-cases,
}
use relay_gateway.Common.Lists.{get_elem?}
use relay_gateway.Common.Text.{Text, trim_space}
use relay_gateway.Router.Locks.{
  no_locks, enter, holding, leaving, gone, Holder, Process, entered, Step, enters, takes, gives_up,
  gives_back, drops, Reached, starts, continues,
}
use relay_gateway.Router.Locks.Counting.{uses, holds, count, count-member, count-pair, count-none}
use relay_gateway.Router.Locks.Holding.{Safe, filled-Safe, dropped-Safe}
use relay_gateway.Router.Locks.Entering.{shared-Safe, fresh-Safe}

enter-Safe : (p : Process) (key : Text) → Safe p → Safe (entered key p.holders (enter key p.locks))
unfolding enter
enter-Safe p key s = elim (Option-cases (p.locks.items key)) [
  | inl e ↦ rw e (fresh-Safe p key e s)
  | inr (a, e) ↦ rw e (shared-Safe p key a e s)
]

step-Safe : (p q : Process) → Step p q → Safe p → Safe q
step-Safe _ _ (enters p key _) s = enter-Safe p (trim_space key) s
step-Safe _ _ (takes p i h e w f) s =
    filled-Safe p i h holding true e (rw w refl) refl (rw (w, f) refl) s
step-Safe _ _ (gives_up p i h e w) s = dropped-Safe p i h e (rw w refl) (rw w refl) s
step-Safe _ _ (gives_back p i h e w) s =
    let one = count-member (holds h.address) p.holders i h e (ground (arith, w)) in
    filled-Safe p i h leaving false e (rw w refl) refl
      (rw w (ground (arith, one, s.sole h.address))) s
step-Safe _ _ (drops p i h e w) s = dropped-Safe p i h e (rw w refl) (rw w refl) s

start-Safe : Safe (record { locks = no_locks; holders = [] })
unfolding no_locks count
start-Safe = record {
  refs = λ a. refl;
  sole = λ a. refl;
  own = λ i h e. elim (none_some e) [ ];
  below = λ k a e. elim (none_some e) [ ];
  used = λ k a e. elim (none_some e) [ ];
  apart = λ k k' a e. elim (none_some e) [ ];
}
  where
    none_some : {A : Type 0} {x : A} → none ≡ some x → ⊥
    none_some e = cc

Reached-Safe : (p : Process) → Reached p → Safe p
Reached-Safe _ starts = start-Safe
Reached-Safe _ (continues p q r s) = step-Safe p q s (Reached-Safe p r)

-- Whatever goroutines enter, give up and release, in any order, while one holds the lock of a key no other
-- holds it, though items are deleted from the map and made again meanwhile.
pub mutual_exclusion :
    (p : Process) (i j : ℕ) (h h' : Holder)
    → Reached p
    → get_elem? p.holders i ≡ some h
    → get_elem? p.holders j ≡ some h'
    → i ≢ j
    → h.phase ≡ holding
    → h.key ≡ h'.key
    → h'.phase ≢ holding
mutual_exclusion p i j h h' r e f d w k w' =
    let s = Reached-Safe p r in
    let same : some h.address ≡ some h'.address =
      sym (s.own i h e (rw w refl)) ∙ ap p.locks.items k ∙ s.own j h' f (rw w' refl) in
    let two =
      count-pair (holds h.address) p.holders i j h h' e f (ground (arith, w))
        (ground (arith, w', same)) d in
    ground (arith, two, s.sole h.address)

-- Once every goroutine is through, the map is empty, whatever happened before.
pub no_item_left :
    (p : Process) (key : Text)
    → Reached p
    → ((i : ℕ) (h : Holder) → get_elem? p.holders i ≡ some h → h.phase ≡ gone)
    → p.locks.items key ≡ none
no_item_left p key r all = elim (Option-cases (p.locks.items key)) [
  | inl e ↦ e
  | inr (a, e) ↦
      let s = Reached-Safe p r in
      let n = count-none (uses a) p.holders (λ i h q. let g = all i h q in ground (arith, g)) in
      let u = s.used key a e in ground (arith, n, u, s.refs a)
]
