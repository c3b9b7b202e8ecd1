-- ===== src/Sql/Appends.antt =====
-- Rows at the end of a table, and rows that are in order as they are.
use aion2_hub.Prelude.{
  ◌≡◌, refl, Bool, true, false, inl, inr, Bool-cases, some, arith, List, [], ◌∷◌, ◌++◌,
}
use aion2_hub.Prelude.Sort.{All}
use aion2_hub.Sql.{select_where, exists_where, one_where, update_where, order_in, order_by}

module _ {ℓ} {A : Type ℓ} where
  pub select-snoc_hit :
      (p : A → Bool) (xs : List A) (r : A)
      → p r ≡ true
      → select_where p (xs ++ r ∷ []) ≡ select_where p xs ++ r ∷ []
  unfolding select_where
  select-snoc_hit p [] r e = rw e refl
  select-snoc_hit p (x ∷ xs) r e = elim (Bool-cases (p x)) [
    | inl h ↦ rw (h, select-snoc_hit p xs r e) refl
    | inr h ↦ rw (h, select-snoc_hit p xs r e) refl
  ]

  pub select-none :
      (p : A → Bool) (xs : List A) → exists_where p xs ≡ false → select_where p xs ≡ []
  unfolding select_where exists_where
  select-none p [] e = refl
  select-none p (x ∷ xs) e = elim (Bool-cases (p x)) [
    | inl h ↦ let absurd_eq : true ≡ false = rw h at e in cc
    | inr h ↦ rw h (select-none p xs (rw h at e))
  ]

  -- An order in which every row may stand before every other keeps the rows as they are.
  pub order_by-same :
      (before : A → A → Bool) (P : A → Type 0) (xs : List A)
      → ((a b : A) → P a → P b → before a b ≡ true)
      → All P xs
      → order_by before xs ≡ xs
  unfolding order_by order_in
  order_by-same before P [] h a = refl
  order_by-same before P (x ∷ []) h a = refl
  order_by-same before P (x ∷ y ∷ xs) h (a, rest) =
      rw (order_by-same before P (y ∷ xs) h rest) (rw (h x y a rest.0) refl)

  pub one_where-replaced :
      (p : A → Bool) (r : A) (xs : List A)
      → p r ≡ true
      → exists_where p xs ≡ true
      → one_where p (update_where p (λ x. r) xs) ≡ some r
  unfolding one_where update_where exists_where
  one_where-replaced p r [] k e = cc
  one_where-replaced p r (x ∷ xs) k e = elim (Bool-cases (p x)) [
    | inl h ↦ rw (h, k) refl
    | inr h ↦ rw (h, h) (one_where-replaced p r xs k (ground (arith, e, h)))
  ]
