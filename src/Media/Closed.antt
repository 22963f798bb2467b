-- ===== src/Media/Closed.antt =====
-- Rows of revoked assets, and what keeps them so (db/media.go).
use relay_gateway.Common.Base.{
  ℕ, ◌+◌, ◌≤◌, ◌<◌, ◌≡◌, refl, inl, inr, Bool, true, false, Option, none, some, List, [], ◌∷◌, ◌++◌,
  if◌then◌else◌, arith, Bool-cases,
}
use relay_gateway.Common.Results.{Result, ok, err, ◌>>=◌}
use relay_gateway.Common.Tables.{first_where, count_where, update_where, delete_where}
use relay_gateway.Media.Rows.{MediaAsset, MediaStore, MediaError, found_or}
use relay_gateway.Media.Assets.{live_asset}

module _ {ℓ} {A : Type ℓ} where
  pub count_where-update_where :
      (p q : A → Bool) (f : A → A) (rs : List A)
      → ((r : A) → q r ≡ true → p (f r) ≡ true → p r ≡ true)
      → count_where p rs ≡ 0
      → count_where p (update_where q f rs) ≡ 0
  unfolding count_where update_where
  count_where-update_where p q f [] h z = refl
  count_where-update_where p q f (r ∷ rs) h z =
      let rest = count_where-update_where p q f rs h in
      elim (Bool-cases (q r)) [
        | inr e ↦ ground (arith, e, rest, z)
        | inl e ↦ elim (Bool-cases (p (f r))) [
          | inr g ↦ ground (arith, e, g, rest, z)
          | inl g ↦ let was = h r e g in ground (arith, was, z)
        ]
      ]

  pub count_where-delete_where :
      (p q : A → Bool) (rs : List A) → count_where p rs ≡ 0 → count_where p (delete_where q rs) ≡ 0
  unfolding count_where delete_where
  count_where-delete_where p q [] z = refl
  count_where-delete_where p q (r ∷ rs) z = ground (arith, count_where-delete_where p q rs)

  pub count_where-append :
      (p : A → Bool) (rs : List A) (a : A)
      → p a ≡ false
      → count_where p rs ≡ 0
      → count_where p (rs ++ a ∷ []) ≡ 0
  unfolding count_where
  count_where-append p [] a h z = rw h refl
  count_where-append p (r ∷ rs) a h z = ground (arith, count_where-append p rs a h)

  -- Fewer rows meet the stronger condition.
  pub count_where-implies :
      (p q : A → Bool) (rs : List A)
      → ((r : A) → q r ≡ true → p r ≡ true)
      → count_where q rs ≤ count_where p rs
  unfolding count_where
  count_where-implies p q [] h = omega arith
  count_where-implies p q (r ∷ rs) h =
      let rest = count_where-implies p q rs h in
      elim (Bool-cases (q r)) [
        | inr e ↦ ground (arith, e, rest)
        | inl e ↦ let both = h r e in ground (arith, e, both, rest)
      ]

  -- A row that is found does not count where a narrower condition leaves it out.
  pub first_where-count_where :
      (f p q : A → Bool) (rs : List A) (a : A)
      → first_where f rs ≡ some a
      → ((r : A) → q r ≡ true → p r ≡ true)
      → p a ≡ true
      → q a ≡ false
      → count_where q rs + 1 ≤ count_where p rs
  unfolding first_where count_where
  first_where-count_where f p q [] a e h t u = cc
  first_where-count_where f p q (r ∷ rs) a e h t u = elim (Bool-cases (f r)) [
    | inl g ↦
        let rest = count_where-implies p q rs h in
        let same : r ≡ a = some_inj (rw g at e) in rw (same, t, u) (omega (arith, rest))
    | inr g ↦
        let rest = first_where-count_where f p q rs a (rw g at e) h t u in
        elim (Bool-cases (q r)) [
          | inr b ↦ ground (arith, b, rest)
          | inl b ↦ let both = h r b in ground (arith, b, both, rest)
        ]
  ]
    where
      some_inj : some r ≡ some a → r ≡ a
      some_inj e = cc

  pub first_where-found :
      (f p : A → Bool) (rs : List A) (a : A)
      → first_where f rs ≡ some a
      → p a ≡ true
      → 1 ≤ count_where p rs
  unfolding first_where count_where
  first_where-found f p [] a e t = cc
  first_where-found f p (r ∷ rs) a e t = elim (Bool-cases (f r)) [
    | inr g ↦ let rest = first_where-found f p rs a (rw g at e) t in ground (arith, rest)
    | inl g ↦ ground (arith, e, g, t)
  ]

  -- An update of every row that could count.
  pub count_where-all :
      (p q : A → Bool) (f : A → A) (rs : List A)
      → ((r : A) → q r ≡ false → p r ≡ false)
      → ((r : A) → q r ≡ true → p (f r) ≡ false)
      → count_where p (update_where q f rs) ≡ 0
  unfolding count_where update_where
  count_where-all p q f [] h k = refl
  count_where-all p q f (r ∷ rs) h k = elim (Bool-cases (q r)) [
    | inl e ↦ rw (e, k r e) (count_where-all p q f rs h k)
    | inr e ↦ rw (e, h r e) (count_where-all p q f rs h k)
  ]

-- No row of the asset is live, and its id is not handed out again.
pub record Shut (id next : ℕ) (assets : List MediaAsset) : Type 0 where
  pub past : id < next
  pub none_live : count_where (live_asset id) assets ≡ 0

abbrev pub Closed : ℕ → MediaStore → Type 0
Closed id s = Shut id s.next_asset s.assets

-- Where a transaction commits, the asset is closed afterwards.
unfoldable pub Keeps : ℕ → Result MediaError MediaStore → Type 0
Keeps id (ok s) = Closed id s
Keeps id (err e) = Unit {0}

pub committed-Keeps : (id : ℕ) (s : MediaStore) → Closed id s → Keeps id (ok s)
unfolding Keeps
committed-Keeps id s c = c

pub refused-Keeps :
    (id : ℕ) (b : Bool) (e : MediaError) (x : Result MediaError MediaStore)
    → Keeps id x
    → Keeps id (if b then err e else x)
unfolding Keeps
refused-Keeps id true e x k = tt
refused-Keeps id false e x k = k

pub either-Keeps :
    (id : ℕ) (b : Bool) (x y : Result MediaError MediaStore)
    → Keeps id x
    → Keeps id y
    → Keeps id (if b then x else y)
either-Keeps id true x y k m = k
either-Keeps id false x y k m = m

pub found_or-Keeps {ℓ} :
    {A : Type ℓ} (id : ℕ) (e : MediaError) (o : Option A) (f : A → Result MediaError MediaStore)
    → ((a : A) → o ≡ some a → Keeps id (f a))
    → Keeps id (found_or e o f)
unfolding Keeps
found_or-Keeps id e none f h = tt
found_or-Keeps id e (some a) f h = h a refl

pub then-Keeps :
    (id : ℕ) (x : Result MediaError MediaStore) (f : MediaStore → Result MediaError MediaStore)
    → Keeps id x
    → ((s : MediaStore) → Closed id s → Keeps id (f s))
    → Keeps id (x >>= f)
unfolding Keeps
then-Keeps id (ok s) f k h = h s k
then-Keeps id (err e) f k h = tt

-- An update of the rows of assets.
pub updated-Shut :
    (id next : ℕ) (q : MediaAsset → Bool) (f : MediaAsset → MediaAsset) (assets : List MediaAsset)
    → ((a : MediaAsset) → q a ≡ true → live_asset id (f a) ≡ true → live_asset id a ≡ true)
    → Shut id next assets
    → Shut id next (update_where q f assets)
updated-Shut id next q f assets h c = record {
  past = c.past;
  none_live = count_where-update_where (live_asset id) q f assets h c.none_live;
}
