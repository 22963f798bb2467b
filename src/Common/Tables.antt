-- ===== src/Common/Tables.antt =====
-- SQL tables as lists of rows: the statements of GORM that the stores use.
use relay_gateway.Common.Base.{ℕ, ◌+◌, Bool, Option, none, some, List, [], ◌∷◌, if◌then◌else◌}

module _ {ℓ} {A : Type ℓ} where
  -- `First` in the order of the rows.
  unfoldable pub first_where : (A → Bool) → List A → Option A
  first_where q [] = none
  first_where q (r ∷ rs) = if q r then some r else first_where q rs

  unfoldable pub count_where : (A → Bool) → List A → ℕ
  count_where q [] = 0
  count_where q (r ∷ rs) = let rest = count_where q rs in if q r then 1 + rest else rest

  -- `Updates` of the rows that a condition selects.
  unfoldable pub update_where : (A → Bool) → (A → A) → List A → List A
  update_where q f [] = []
  update_where q f (r ∷ rs) = let rest = update_where q f rs in if q r then f r ∷ rest else r ∷ rest

  unfoldable pub delete_where : (A → Bool) → List A → List A
  delete_where q [] = []
  delete_where q (r ∷ rs) = let rest = delete_where q rs in if q r then rest else r ∷ rest
