-- ===== src/Sql.antt =====
-- The SQL statements of the storage code on tables as lists of rows, in the order in which the
-- rows were inserted: apps/desktop/src/main/storage/sql.ts (`allRows`, `oneRow`) and the
-- statements that the domains hand to it.
pub mod Laws
pub mod Orders
pub mod Keys
pub mod Appends
pub mod Sums
pub mod Distinct
use aion2_hub.Prelude.{
  ℕ, zero, suc, ◌≡◌, refl, ◌⊎◌, inl, inr, List, [], ◌∷◌, ◌++◌, Bool, true, false, not, ◌||◌, Option,
  none, some, if◌then◌else◌,
}

-- What a failing call throws.
pub data Error : Type 0 where
  bad_request character_not_found not_found no_character : Error
  bad_build_score bad_backup unsupported_backup_version : Error
  -- A constraint of the schema: a key that is taken, or a reference to a row that is not there.
  constraint_failed : Error
  -- A statement that SQLite refuses.
  statement_failed : Error

pub data Result {ℓ} (A : Type ℓ) : Type ℓ where
  ok : A → Result A
  err : Error → Result A

infixl 5 ◌>>=◌
abbrev pub ◌>>=◌ {ℓ κ} : {A : Type ℓ} {B : Type κ} → Result A → (A → Result B) → Result B
ok a >>= f = f a
err e >>= f = err e

module _ {ℓ} {A : Type ℓ} where
  -- `SELECT … WHERE p`.
  unfoldable pub select_where : (A → Bool) → List A → List A
  select_where p [] = []
  select_where p (r ∷ rs) = let rest = select_where p rs in if p r then r ∷ rest else rest

  -- `DELETE … WHERE p`.
  unfoldable pub delete_where : (A → Bool) → List A → List A
  delete_where p = select_where (λ r. not (p r))

  -- `UPDATE … SET f WHERE p`.
  unfoldable pub update_where : (A → Bool) → (A → A) → List A → List A
  update_where p f [] = []
  update_where p f (r ∷ rs) = (if p r then f r else r) ∷ update_where p f rs

  -- Is there a row with `p`?
  unfoldable pub exists_where : (A → Bool) → List A → Bool
  exists_where p [] = false
  exists_where p (r ∷ rs) = p r || exists_where p rs

  -- `oneRow` of a `SELECT … WHERE p`: the first row, if there is one.
  unfoldable pub one_where : (A → Bool) → List A → Option A
  one_where p [] = none
  one_where p (r ∷ rs) = let rest = one_where p rs in if p r then some r else rest

  -- `INSERT` into a table with a key, `same` telling whether a row has the new row's key.
  unfoldable pub insert_row : (A → Bool) → A → List A → Result (List A)
  insert_row same r rs = if exists_where same rs then err constraint_failed else ok (rs ++ r ∷ [])

  -- `INSERT OR IGNORE`.
  unfoldable pub insert_or_ignore : (A → Bool) → A → List A → List A
  insert_or_ignore same r rs = if exists_where same rs then rs else rs ++ r ∷ []

  -- `ORDER BY`: a row goes before those that it need not follow.
  pub order_in : (A → A → Bool) → A → List A → List A
  order_in before r [] = r ∷ []
  order_in before r (s ∷ rs) = if before r s then r ∷ s ∷ rs else s ∷ order_in before r rs

  unfoldable pub order_by : (A → A → Bool) → List A → List A
  unfolding order_in
  order_by before [] = []
  order_by before (r ∷ rs) = order_in before r (order_by before rs)

  -- `LIMIT n`.
  unfoldable pub limit : ℕ → List A → List A
  limit zero rs = []
  limit (suc n) [] = []
  limit (suc n) (r ∷ rs) = r ∷ limit n rs

pub Result-cases {ℓ} :
    {A : Type ℓ} (r : Result A) → ((e : Error) × (r ≡ err e)) ⊎ ((a : A) × (r ≡ ok a))
Result-cases (ok a) = inr (a, refl)
Result-cases (err e) = inl (e, refl)
