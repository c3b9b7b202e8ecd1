-- ===== src/Sql/Keys.antt =====
-- What a `SELECT` by key gives after an `INSERT`, an `UPDATE` and a `DELETE`.
use aion2_hub.Prelude.{
  ◌≡◌, refl, inl, inr, Bool, true, false, Bool-cases, List, [], ◌∷◌, ◌++◌, none, some, arith,
}
use aion2_hub.Sql.{exists_where, one_where, update_where, delete_where, select_where}

module _ {ℓ} {A : Type ℓ} where
  pub one_where-snoc_other :
      (p : A → Bool) (xs : List A) (r : A)
      → p r ≡ false
      → one_where p (xs ++ r ∷ []) ≡ one_where p xs
  unfolding one_where
  one_where-snoc_other p [] r e = rw e refl
  one_where-snoc_other p (x ∷ xs) r e = ground (arith, one_where-snoc_other p xs r e)

  pub one_where-update :
      (p : A → Bool) (f : A → A) (xs : List A)
      → ((x : A) → p (f x) ≡ p x)
      → exists_where p xs ≡ true
      → (r : A) × (one_where p (update_where p f xs) ≡ some (f r))
  unfolding one_where update_where exists_where
  one_where-update p f [] k e = cc
  one_where-update p f (x ∷ xs) k e = elim (Bool-cases (p x)) [
    | inl h ↦ (x, rw (h, k x, h) refl)
    | inr h ↦ let (r, q) = one_where-update p f xs k (ground (arith, e, h)) in (r, rw (h, h) q)
  ]

  pub one_where-update_other :
      (p q : A → Bool) (f : A → A) (xs : List A)
      → ((x : A) → q x ≡ true → (p x ≡ false) × (p (f x) ≡ false))
      → one_where p (update_where q f xs) ≡ one_where p xs
  unfolding one_where update_where
  one_where-update_other p q f [] k = refl
  one_where-update_other p q f (x ∷ xs) k = elim (Bool-cases (q x)) [
    | inl h ↦ let (a, b) = k x h in rw (h, a, b) (one_where-update_other p q f xs k)
    | inr h ↦ rw (h, one_where-update_other p q f xs k) refl
  ]

  pub one_where-delete : (p : A → Bool) (xs : List A) → one_where p (delete_where p xs) ≡ none
  unfolding one_where delete_where select_where
  one_where-delete p [] = refl
  one_where-delete p (x ∷ xs) = elim (Bool-cases (p x)) [
    | inl h ↦ rw h (one_where-delete p xs)
    | inr h ↦ rw (h, h) (one_where-delete p xs)
  ]

  pub one_where-delete_other :
      (p q : A → Bool) (xs : List A)
      → ((x : A) → q x ≡ true → p x ≡ false)
      → one_where p (delete_where q xs) ≡ one_where p xs
  unfolding one_where delete_where select_where
  one_where-delete_other p q [] k = refl
  one_where-delete_other p q (x ∷ xs) k = elim (Bool-cases (q x)) [
    | inl h ↦ rw (h, k x h) (one_where-delete_other p q xs k)
    | inr h ↦ rw (h, one_where-delete_other p q xs k) refl
  ]

module _ {ℓ} {A : Type ℓ} where
  pub one_where-none :
      (p : A → Bool) (xs : List A) → one_where p xs ≡ none → exists_where p xs ≡ false
  unfolding one_where exists_where
  one_where-none p [] e = refl
  one_where-none p (x ∷ xs) e = ground (arith, one_where-none p xs, e)

  pub one_where-holds : (p : A → Bool) (xs : List A) {r : A} → one_where p xs ≡ some r → p r ≡ true
  unfolding one_where
  one_where-holds p [] {r} e = cc
  one_where-holds p (x ∷ xs) {r} e = elim (Bool-cases (p x)) [
    | inl h ↦ let f : some x ≡ some r = rw (h) at e in cc
    | inr h ↦ one_where-holds p xs (rw (h) at e)
  ]

  -- The first row with `p` is still the first after an update that keeps `p`.
  pub one_where-updated :
      (p q : A → Bool) (f : A → A) (xs : List A) (r : A)
      → ((x : A) → p (f x) ≡ p x)
      → one_where p xs ≡ some r
      → q r ≡ true
      → one_where p (update_where q f xs) ≡ some (f r)
  unfolding one_where update_where
  one_where-updated p q f [] r k e h = cc
  one_where-updated p q f (x ∷ xs) r k e h = elim (Bool-cases (p x)) [
    | inl g ↦
        let same : some x ≡ some r = rw (g) at e in let hit : q x ≡ true = cc in rw (hit, k x, g) cc
    | inr g ↦
        let rest = one_where-updated p q f xs r k (rw (g) at e) h in
        elim (Bool-cases (q x)) [ inl c ↦ rw (c, k x, g) rest | inr c ↦ rw (c, g) rest ]
  ]
