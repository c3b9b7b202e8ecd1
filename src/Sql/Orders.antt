-- ===== src/Sql/Orders.antt =====
-- `ORDER BY` on a number and the number of rows of a `SELECT`.
use aion2_hub.Prelude.{
  ℕ, ◌+◌, ◌≤◌, ◌<◌, ◌≡◌, refl, inl, inr, Bool, true, not, ◌&&◌, ◌||◌, Bool-cases, leb, List, [],
  ◌∷◌, length, arith,
}
use aion2_hub.Prelude.Sort.{All}
use aion2_hub.Sql.{select_where, exists_where, order_in, order_by}
use aion2_hub.Sql.Laws.{All-map}

module _ {ℓ} {A : Type ℓ} where
  length-order_in :
      (before : A → A → Bool) (x : A) (xs : List A) → length (order_in before x xs) ≡ 1 + length xs
  unfolding order_in
  length-order_in before x [] = refl
  length-order_in before x (y ∷ xs) = ground (arith, length-order_in before x xs)

  pub length-order_by :
      (before : A → A → Bool) (xs : List A) → length (order_by before xs) ≡ length xs
  unfolding order_by
  length-order_by before [] = refl
  length-order_by before (x ∷ xs) =
      omega (arith, length-order_in before x (order_by before xs), length-order_by before xs)

  pub exists-order_in :
      (p : A → Bool) (before : A → A → Bool) (x : A) (xs : List A)
      → exists_where p (order_in before x xs) ≡ (p x || exists_where p xs)
  unfolding order_in exists_where
  exists-order_in p before x [] = refl
  exists-order_in p before x (y ∷ xs) = ground (arith, exists-order_in p before x xs)

  pub exists-order_by :
      (p : A → Bool) (before : A → A → Bool) (xs : List A)
      → exists_where p (order_by before xs) ≡ exists_where p xs
  unfolding order_by exists_where
  exists-order_by p before [] = refl
  exists-order_by p before (x ∷ xs) =
      ground (arith, exists-order_in p before x (order_by before xs), exists-order_by p before xs)

  -- The first row of an order by a number has the least.
  abbrev pub HeadMin : (A → ℕ) → List A → List A → Type 0
  HeadMin key [] xs = length xs ≡ 0
  HeadMin key (h ∷ rest) xs = All (λ y. key h ≤ key y) xs

  head_min :
      (key : A → ℕ) (x : A) (xs ys : List A)
      → HeadMin key ys xs
      → HeadMin key (order_in (λ a b. leb (key a) (key b)) x ys) (x ∷ xs)
  unfolding order_in
  head_min key x [] [] a = (omega arith, tt)
  head_min key x (z ∷ xs) [] a = absurd (omega arith)
  head_min key x xs (y ∷ ys) a = elim (Bool-cases (leb (key x) (key y))) [
    | inl e ↦ rw (e) (omega arith, All-map _ _ xs (λ z h. ground (arith, h, e)) a)
    | inr e ↦ rw (e) (ground (arith, e), a)
  ]

  pub order_by-HeadMin :
      (key : A → ℕ) (xs : List A) → HeadMin key (order_by (λ a b. leb (key a) (key b)) xs) xs
  unfolding order_by
  order_by-HeadMin key [] = refl
  order_by-HeadMin key (x ∷ xs) = head_min key x xs _ (order_by-HeadMin key xs)

  -- As many rows, where the tests agree on the rows.
  pub count_congr :
      (p q : A → Bool) (xs : List A)
      → All (λ x. p x ≡ q x) xs
      → length (select_where p xs) ≡ length (select_where q xs)
  unfolding select_where
  count_congr p q [] a = refl
  count_congr p q (x ∷ xs) a = ground (arith, a, count_congr p q xs a.1)

  pub count_mono :
      (p q : A → Bool) (xs : List A)
      → ((x : A) → p x ≡ true → q x ≡ true)
      → length (select_where p xs) ≤ length (select_where q xs)
  unfolding select_where
  count_mono p q [] h = omega arith
  count_mono p q (x ∷ xs) h = ground (arith, h x, count_mono p q xs h)

  -- Fewer rows, where one of them is lost.
  pub count_less :
      (p q : A → Bool) (xs : List A)
      → ((x : A) → p x ≡ true → q x ≡ true)
      → exists_where (λ x. not (p x) && q x) xs ≡ true
      → length (select_where p xs) < length (select_where q xs)
  unfolding select_where exists_where
  count_less p q [] h e = cc
  count_less p q (x ∷ xs) h e = ground (arith, h x, count_mono p q xs h, count_less p q xs h)

  -- What all selected rows satisfy.
  pub All-selected {κ} :
      (P : A → Type κ) (q : A → Bool) (xs : List A)
      → All P (select_where q xs)
      → All (λ x. q x ≡ true → P x) xs
  unfolding select_where
  All-selected P q [] a = tt
  All-selected P q (x ∷ xs) a = elim (Bool-cases (q x)) [
    | inl e ↦ let b = rw (e) at a in (λ f. b.0, All-selected P q xs b.1)
    | inr e ↦ let b = rw (e) at a in (λ f. cc, All-selected P q xs b)
  ]
