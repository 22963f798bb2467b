-- ===== src/Router/Locks/Holding.antt =====
-- The counts of the items, kept where a goroutine takes the semaphore, gives it back or drops its
-- reference (router/profile_idempotency.go).
use relay_gateway.Common.Base.{
  ℕ, ◌+◌, ◌-◌, ◌≤◌, ◌<◌, ◌≡◌, sym, ap, ◌∙◌, inl, inr, Bool, true, false, some, ◌==◌, arith,
  Bool-cases,
}
use relay_gateway.Common.Lists.{get_elem?, set}
use relay_gateway.Common.Text.{Text, text_eq, text_eq_iff, text_eq_refl}
use relay_gateway.Router.Locks.{drop_reference, fill, Phase, gone, Holder, Process, with_holder}
use relay_gateway.Router.Locks.Counting.{
  bit, is_gone, is_holding, uses, holds, count, count-set, count-member, get_elem?-set,
}

pub record Safe (p : Process) : Type 0 where
  pub refs : (a : ℕ) → (p.locks.heap a).refs ≡ count (uses a) p.holders
  pub sole : (a : ℕ) → bit (p.locks.heap a).full ≡ count (holds a) p.holders
  pub own :
      (i : ℕ) (h : Holder)
      → get_elem? p.holders i ≡ some h
      → is_gone h.phase ≡ false
      → p.locks.items h.key ≡ some h.address
  pub below : (k : Text) (a : ℕ) → p.locks.items k ≡ some a → a < p.locks.next
  pub used : (k : Text) (a : ℕ) → p.locks.items k ≡ some a → 1 ≤ (p.locks.heap a).refs
  pub apart : (k k' : Text) (a : ℕ) → p.locks.items k ≡ some a → p.locks.items k' ≡ some a → k ≡ k'

-- A goroutine that keeps its reference: the semaphore is taken or given back.
module _ (p : Process) (i : ℕ) (h : Holder) (phase : Phase) (b : Bool)
    (at_ : get_elem? p.holders i ≡ some h) (here : is_gone h.phase ≡ false)
    (stays : is_gone phase ≡ false)
    (change : bit b + bit (is_holding h.phase)
      ≡ bit (p.locks.heap h.address).full + bit (is_holding phase))
    (s : Safe p) where
  filled_refs :
      (a : ℕ)
      → ((fill h.address b p.locks).heap a).refs
        ≡ count (uses a) (set p.holders i (record h { phase = phase }))
  unfolding fill
  filled_refs a =
      let c = count-set (uses a) p.holders i h (record h { phase = phase }) at_ in
      ground (arith, c, here, stays, s.refs a)

  filled_sole :
      (a : ℕ)
      → bit ((fill h.address b p.locks).heap a).full
        ≡ count (holds a) (set p.holders i (record h { phase = phase }))
  unfolding fill
  filled_sole a =
      let c = count-set (holds a) p.holders i h (record h { phase = phase }) at_ in
      elim (Bool-cases (h.address == a)) [
        | inl e ↦ ground (arith, c, e, change, s.sole a)
        | inr e ↦ ground (arith, c, e, s.sole a)
      ]

  filled_own :
      (j : ℕ) (x : Holder)
      → get_elem? (set p.holders i (record h { phase = phase })) j ≡ some x
      → is_gone x.phase ≡ false
      → p.locks.items x.key ≡ some x.address
  filled_own j x e g = elim (get_elem?-set p.holders i j (record h { phase = phase }) x e) [
    | inr e' ↦ s.own j x e' g
    | inl q ↦ rw q (s.own i h at_ here)
  ]

  pub filled-Safe : Safe (with_holder i h phase (fill h.address b p.locks) p.holders)
  unfolding fill
  filled-Safe = record {
    refs = filled_refs;
    sole = filled_sole;
    own = filled_own;
    below = s.below;
    used = λ k a e. let u = s.used k a e in ground (arith, u);
    apart = s.apart;
  }

-- A goroutine that drops its reference.
module _ (p : Process) (i : ℕ) (h : Holder) (at_ : get_elem? p.holders i ≡ some h)
    (here : is_gone h.phase ≡ false) (idle : is_holding h.phase ≡ false) (s : Safe p) where
  dropped_refs :
      (a : ℕ)
      → ((drop_reference h.key h.address p.locks).heap a).refs
        ≡ count (uses a) (set p.holders i (record h { phase = gone }))
  unfolding drop_reference
  dropped_refs a =
      let c = count-set (uses a) p.holders i h (record h { phase = gone }) at_ in
      ground (arith, c, here, s.refs a)

  dropped_sole :
      (a : ℕ)
      → bit ((drop_reference h.key h.address p.locks).heap a).full
        ≡ count (holds a) (set p.holders i (record h { phase = gone }))
  unfolding drop_reference
  dropped_sole a =
      let c = count-set (holds a) p.holders i h (record h { phase = gone }) at_ in
      ground (arith, c, idle, s.sole a)

  -- The key is still in use while another goroutine has a reference to it.
  still_used :
      (j : ℕ) (x : Holder)
      → get_elem? (set p.holders i (record h { phase = gone })) j ≡ some x
      → is_gone x.phase ≡ false
      → p.locks.items x.key ≡ some x.address
      → x.key ≡ h.key
      → 1 ≤ (p.locks.heap h.address).refs - 1
  unfolding drop_reference
  still_used j x e g o k =
      let same : some x.address ≡ some h.address =
        sym o ∙ ap p.locks.items k ∙ s.own i h at_ here in
      let m =
        count-member (uses h.address) (set p.holders i (record h { phase = gone })) j x e
          (ground (arith, same, g)) in
      let r = dropped_refs h.address in ground (arith, m, r)

  dropped_own :
      (j : ℕ) (x : Holder)
      → get_elem? (set p.holders i (record h { phase = gone })) j ≡ some x
      → is_gone x.phase ≡ false
      → (drop_reference h.key h.address p.locks).items x.key ≡ some x.address
  unfolding drop_reference
  dropped_own j x e g = elim (get_elem?-set p.holders i j (record h { phase = gone }) x e) [
    | inl q ↦ ground (arith, q, g)
    | inr e' ↦
        let o = s.own j x e' g in
        elim (Bool-cases (text_eq x.key h.key)) [
          | inr d ↦ ground (arith, o, d)
          | inl d ↦
              let u = still_used j x e g o ((text_eq_iff x.key h.key).0 d) in ground (arith, o, u)
        ]
  ]

  -- What is in the map afterwards was there before, and is not the item that is unused.
  dropped_item :
      (k : Text) (a : ℕ)
      → (drop_reference h.key h.address p.locks).items k ≡ some a
      → p.locks.items k ≡ some a
  unfolding drop_reference
  dropped_item k a e = ground (arith, e)

  dropped_used :
      (k : Text) (a : ℕ)
      → (drop_reference h.key h.address p.locks).items k ≡ some a
      → 1 ≤ ((drop_reference h.key h.address p.locks).heap a).refs
  unfolding drop_reference
  dropped_used k a e =
      let before = dropped_item k a e in
      let u = s.used k a before in
      elim (Bool-cases (a == h.address)) [
        | inr d ↦ ground (arith, u, d)
        | inl d ↦
            let same : a ≡ h.address = ground (arith, d) in
            let key : k ≡ h.key =
              s.apart k h.key a before (s.own i h at_ here ∙ ap (λ b. some b) (sym same)) in
            let hit : text_eq k h.key ≡ true = rw key (text_eq_refl h.key) in
            ground (arith, e, d, u, hit)
      ]

  dropped_below :
      (k : Text) (a : ℕ)
      → (drop_reference h.key h.address p.locks).items k ≡ some a
      → a < (drop_reference h.key h.address p.locks).next
  unfolding drop_reference
  dropped_below k a e = s.below k a (dropped_item k a e)

  pub dropped-Safe : Safe (with_holder i h gone (drop_reference h.key h.address p.locks) p.holders)
  dropped-Safe = record {
    refs = dropped_refs;
    sole = dropped_sole;
    own = dropped_own;
    below = dropped_below;
    used = dropped_used;
    apart = λ k k' a e f. s.apart k k' a (dropped_item k a e) (dropped_item k' a f);
  }
