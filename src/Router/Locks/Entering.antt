-- ===== src/Router/Locks/Entering.antt =====
-- The counts of the items, kept where a goroutine enters (router/profile_idempotency.go).
use relay_gateway.Common.Base.{
  ℕ, zero, suc, ◌≤◌, ◌<◌, ◌≡◌, refl, sym, ap, subst, ◌∙◌, ◌⊎◌, inl, inr, false, none, some, arith,
  Bool-cases,
}
use relay_gateway.Common.Lists.{get_elem?}
use relay_gateway.Common.Text.{Text, text_eq, text_eq_iff, text_eq_refl}
use relay_gateway.Router.Locks.{put_item, put_lock, refer, waiting, Holder, Process, entered}
use relay_gateway.Router.Locks.Counting.{is_gone, uses, holds, count, count-none}
use relay_gateway.Router.Locks.Holding.{Safe}

-- A goroutine that refers to an item that is there.
module _ (p : Process) (key : Text) (a : ℕ) (there : p.locks.items key ≡ some a) (s : Safe p) where
  pub shared-Safe : Safe (entered key p.holders (refer key (some a) p.locks))
  unfolding count
  shared-Safe = record {
    refs = λ b. ground (arith, s.refs b);
    sole = λ b. ground (arith, s.sole b);
    own = shared_own;
    below = s.below;
    used = λ k b e. let u = s.used k b e in ground (arith, u);
    apart = s.apart;
  }
    where
      shared_own :
          (i : ℕ) (h : Holder)
          → get_elem? (entered key p.holders (refer key (some a) p.locks)).holders i ≡ some h
          → is_gone h.phase ≡ false
          → p.locks.items h.key ≡ some h.address
      shared_own zero h e g = ground (arith, e, there)
      shared_own (suc i) h e g = s.own i h e g

-- A goroutine that makes the item.
module _ (p : Process) (key : Text) (absent : p.locks.items key ≡ none) (s : Safe p) where
  unused : (i : ℕ) (h : Holder) → get_elem? p.holders i ≡ some h → uses p.locks.next h ≡ false
  unused i h e = elim (Bool-cases (is_gone h.phase)) [
    | inl g ↦ ground (arith, g)
    | inr g ↦ let b = s.below h.key h.address (s.own i h e g) in ground (arith, b)
  ]

  unheld : (i : ℕ) (h : Holder) → get_elem? p.holders i ≡ some h → holds p.locks.next h ≡ false
  unheld i h e = let u = unused i h e in ground (arith, u)

  fresh_own :
      (i : ℕ) (h : Holder)
      → get_elem? (entered key p.holders (refer key none p.locks)).holders i ≡ some h
      → is_gone h.phase ≡ false
      → put_item key (some p.locks.next) p.locks.items h.key ≡ some h.address
  fresh_own zero h e g =
      let same : record { key = key; address = p.locks.next; phase = waiting } ≡ h = some_inj e in
      rw (sym (ap (λ x. x.key) same), sym (ap (λ x. x.address) same), text_eq_refl key) refl
    where
      some_inj : {x y : Holder} → some x ≡ some y → x ≡ y
      some_inj e = cc
  fresh_own (suc i) h e g =
      let o = s.own i h e g in
      elim (Bool-cases (text_eq h.key key)) [
        | inr d ↦ ground (arith, o, d)
        | inl d ↦
            let clash : p.locks.items key ≡ some h.address =
              subst (λ k. p.locks.items k ≡ some h.address) ((text_eq_iff h.key key).0 d) o in
            ground (arith, clash, absent)
      ]

  fresh_item :
      (k : Text) (a : ℕ)
      → put_item key (some p.locks.next) p.locks.items k ≡ some a
      → ((k ≡ key) × (a ≡ p.locks.next)) ⊎ ((p.locks.items k ≡ some a) × (a < p.locks.next))
  fresh_item k a e = elim (Bool-cases (text_eq k key)) [
    | inl d ↦ inl ((text_eq_iff k key).0 d, ground (arith, e, d))
    | inr d ↦
        let old : p.locks.items k ≡ some a = ground (arith, e, d) in inr (old, s.below k a old)
  ]

  fresh_apart :
      (k k' : Text) (a : ℕ)
      → put_item key (some p.locks.next) p.locks.items k ≡ some a
      → put_item key (some p.locks.next) p.locks.items k' ≡ some a
      → k ≡ k'
  fresh_apart k k' a e f = both (fresh_item k a e) (fresh_item k' a f)
    where
      less : {b : ℕ} → b ≡ p.locks.next → b < p.locks.next → ⊥
      less e l = omega arith

      both :
          ((k ≡ key) × (a ≡ p.locks.next)) ⊎ ((p.locks.items k ≡ some a) × (a < p.locks.next))
          → ((k' ≡ key) × (a ≡ p.locks.next)) ⊎ ((p.locks.items k' ≡ some a) × (a < p.locks.next))
          → k ≡ k'
      both (inl (x, _)) (inl (y, _)) = x ∙ sym y
      both (inl (x, n)) (inr (y, m)) = absurd (less n m)
      both (inr (x, m)) (inl (y, n)) = absurd (less n m)
      both (inr (x, _)) (inr (y, _)) = s.apart k k' a x y

  fresh_used :
      (k : Text) (a : ℕ)
      → put_item key (some p.locks.next) p.locks.items k ≡ some a
      → 1 ≤ (put_lock p.locks.next (record { full = false; refs = 1 }) p.locks.heap a).refs
  fresh_used k a e = elim (fresh_item k a e) [
    | inl (x, n) ↦ ground (arith, n)
    | inr (x, m) ↦ let u = s.used k a x in ground (arith, m, u)
  ]

  pub fresh-Safe : Safe (entered key p.holders (refer key none p.locks))
  unfolding count
  fresh-Safe =
      let n = count-none (uses p.locks.next) p.holders unused in
      let m = count-none (holds p.locks.next) p.holders unheld in
      record {
        refs = λ a. ground (arith, n, s.refs a);
        sole = λ a. ground (arith, m, s.sole a);
        own = fresh_own;
        below = λ k a e. elim (fresh_item k a e) [
          | inl (x, q) ↦ omega (arith, q)
          | inr (x, q) ↦ omega (arith, q)
        ];
        used = fresh_used;
        apart = fresh_apart;
      }
