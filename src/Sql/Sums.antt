-- ===== src/Sql/Sums.antt =====
-- Sums over the rows of a table, the order of `ORDER BY`, and rows told apart by a key.
use aion2_hub.Prelude.{
  ℕ, ◌+◌, ◌≡◌, refl, ◌∙◌, inl, inr, String, ◌===◌, ===_comm, Bool, true, false, Bool-cases, List,
  [], ◌∷◌, ◌++◌, arith,
}
use aion2_hub.Prelude.Sort.{All}
use aion2_hub.Sql.{select_where, exists_where, order_in, order_by}
use aion2_hub.Sql.Laws.{All-map, exists-snoc}
use aion2_hub.Sql.Orders.{exists-order_in, exists-order_by}

abbrev pub sum_by {ℓ} : {A : Type ℓ} → (A → ℕ) → List A → ℕ
sum_by f [] = 0
sum_by f (x ∷ xs) = f x + sum_by f xs

module _ {ℓ} {A : Type ℓ} where
  sum_by-order_in :
      (f : A → ℕ) (before : A → A → Bool) (x : A) (xs : List A)
      → sum_by f (order_in before x xs) ≡ f x + sum_by f xs
  unfolding order_in
  sum_by-order_in f before x [] = refl
  sum_by-order_in f before x (y ∷ xs) = ground (arith, sum_by-order_in f before x xs)

  pub sum_by-order_by :
      (f : A → ℕ) (before : A → A → Bool) (xs : List A)
      → sum_by f (order_by before xs) ≡ sum_by f xs
  unfolding order_by
  sum_by-order_by f before [] = refl
  sum_by-order_by f before (x ∷ xs) =
      omega (arith, sum_by-order_in f before x (order_by before xs), sum_by-order_by f before xs)

  -- Every row may stand before all that follow it.
  abbrev pub IsOrdered : (A → A → Bool) → List A → Type ℓ
  IsOrdered before [] = Unit
  IsOrdered before (x ∷ xs) = All (λ y. before x y ≡ true) xs × IsOrdered before xs

  module _ (before : A → A → Bool) (total : (a b : A) → before a b ≡ false → before b a ≡ true)
      (transitive : (a b c : A) → before a b ≡ true → before b c ≡ true → before a c ≡ true) where
    All-order_in :
        (P : A → Type 0) (x : A) (xs : List A) → P x → All P xs → All P (order_in before x xs)
    unfolding order_in
    All-order_in P x [] p a = (p, tt)
    All-order_in P x (y ∷ xs) p a = elim (Bool-cases (before x y)) [
      | inl e ↦ rw e (p, a)
      | inr e ↦ rw e (a.0, All-order_in P x xs p a.1)
    ]

    order_in-IsOrdered :
        (x : A) (xs : List A) → IsOrdered before xs → IsOrdered before (order_in before x xs)
    unfolding order_in
    order_in-IsOrdered x [] o = (tt, tt)
    order_in-IsOrdered x (y ∷ xs) o = elim (Bool-cases (before x y)) [
      | inl e ↦ rw e ((e, All-map _ _ xs (λ z h. transitive x y z e h) o.0), o)
      | inr e ↦ rw e (
        All-order_in (λ z. before y z ≡ true) x xs (total x y e) o.0,
        order_in-IsOrdered x xs o.1,
      )
    ]

    pub order_by-IsOrdered : (xs : List A) → IsOrdered before (order_by before xs)
    unfolding order_by
    order_by-IsOrdered [] = tt
    order_by-IsOrdered (x ∷ xs) = order_in-IsOrdered x (order_by before xs) (order_by-IsOrdered xs)

  -- No two rows have one key.
  module _ (key : A → String) where
    abbrev pub keyed : String → A → Bool
    keyed k x = key x === k

    abbrev pub IsDistinct : List A → Type 0
    IsDistinct [] = Unit
    IsDistinct (x ∷ xs) = (exists_where (keyed (key x)) xs ≡ false) × IsDistinct xs

    keyed_sym : (x y : A) → keyed (key x) y ≡ keyed (key y) x
    keyed_sym x y = ===_comm (key y) (key x)

    order_in-IsDistinct :
        (before : A → A → Bool) (x : A) (xs : List A)
        → exists_where (keyed (key x)) xs ≡ false
        → IsDistinct xs
        → IsDistinct (order_in before x xs)
    unfolding order_in exists_where
    order_in-IsDistinct before x [] e d = (refl, tt)
    order_in-IsDistinct before x (y ∷ xs) e d = elim (Bool-cases (before x y)) [
      | inl b ↦ rw b (e, d)
      | inr b ↦ rw b (
        exists-order_in (keyed (key y)) before x xs ∙ ground (arith, keyed_sym x y, e, d.0),
        order_in-IsDistinct before x xs (ground (arith, e)) d.1,
      )
    ]

    pub order_by-IsDistinct :
        (before : A → A → Bool) (xs : List A) → IsDistinct xs → IsDistinct (order_by before xs)
    unfolding order_by
    order_by-IsDistinct before [] d = tt
    order_by-IsDistinct before (x ∷ xs) d =
        order_in-IsDistinct before x (order_by before xs)
          (exists-order_by (keyed (key x)) before xs ∙ d.0) (order_by-IsDistinct before xs d.1)

    exists_select_no :
        (p q : A → Bool) (xs : List A)
        → exists_where p xs ≡ false
        → exists_where p (select_where q xs) ≡ false
    unfolding exists_where select_where
    exists_select_no p q [] e = refl
    exists_select_no p q (x ∷ xs) e = ground (arith, exists_select_no p q xs)

    pub select-IsDistinct :
        (q : A → Bool) (xs : List A) → IsDistinct xs → IsDistinct (select_where q xs)
    unfolding select_where
    select-IsDistinct q [] d = tt
    select-IsDistinct q (x ∷ xs) d = elim (Bool-cases (q x)) [
      | inl e ↦ rw e (exists_select_no (keyed (key x)) q xs d.0, select-IsDistinct q xs d.1)
      | inr e ↦ rw e (select-IsDistinct q xs d.1)
    ]

    pub snoc-IsDistinct :
        (xs : List A) (r : A)
        → IsDistinct xs
        → exists_where (keyed (key r)) xs ≡ false
        → IsDistinct (xs ++ r ∷ [])
    unfolding exists_where
    snoc-IsDistinct [] r d e = (refl, tt)
    snoc-IsDistinct (x ∷ xs) r d e = (
      exists-snoc (keyed (key x)) xs r ∙ ground (arith, keyed_sym x r, e, d.0),
      snoc-IsDistinct xs r d.1 (ground (arith, e)),
    )
