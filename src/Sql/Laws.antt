-- ===== src/Sql/Laws.antt =====
-- Laws of the statements on tables.
use aion2_hub.Prelude.{
  ◌≡◌, refl, ◌⊎◌, inl, inr, String, ◌===◌, ===_refl, List, [], ◌∷◌, ◌++◌, Bool, true, false, not,
  ◌&&◌, ◌||◌, some, Bool-cases, arith,
}
use aion2_hub.Prelude.Sort.{All}
use aion2_hub.Sql.{
  ok, err, constraint_failed, select_where, delete_where, update_where, exists_where, one_where,
  insert_row, insert_or_ignore,
}

module _ {ℓ} {A : Type ℓ} where
  pub exists-append :
      (p : A → Bool) (xs ys : List A)
      → exists_where p (xs ++ ys) ≡ (exists_where p xs || exists_where p ys)
  unfolding exists_where
  exists-append p [] ys = refl
  exists-append p (x ∷ xs) ys = ground (arith, exists-append p xs ys)

  -- A row with `p` that a selection keeps is there after it.
  pub exists-select :
      (p q : A → Bool) (xs : List A)
      → exists_where p (select_where q xs) ≡ exists_where (λ x. p x && q x) xs
  unfolding exists_where select_where
  exists-select p q [] = refl
  exists-select p q (x ∷ xs) = ground (arith, exists-select p q xs)

  pub exists_mono :
      (p q : A → Bool) (xs : List A)
      → ((x : A) → p x ≡ true → q x ≡ true)
      → exists_where p xs ≡ true
      → exists_where q xs ≡ true
  unfolding exists_where
  exists_mono p q [] h e = e
  exists_mono p q (x ∷ xs) h e = ground (arith, h x, exists_mono p q xs h)

  pub exists_congr :
      (p q : A → Bool) (xs : List A) → ((x : A) → p x ≡ q x) → exists_where p xs ≡ exists_where q xs
  unfolding exists_where
  exists_congr p q [] h = refl
  exists_congr p q (x ∷ xs) h = ground (arith, h x, exists_congr p q xs h)

  pub select_congr :
      (p q : A → Bool) (xs : List A) → ((x : A) → p x ≡ q x) → select_where p xs ≡ select_where q xs
  unfolding select_where
  select_congr p q [] h = refl
  select_congr p q (x ∷ xs) h = rw (h x, select_congr p q xs h) refl

  pub exists_never :
      (p : A → Bool) (xs : List A) → ((x : A) → p x ≡ false) → exists_where p xs ≡ false
  unfolding exists_where
  exists_never p [] h = refl
  exists_never p (x ∷ xs) h = ground (arith, h x, exists_never p xs h)

  pub exists-delete :
      (p q : A → Bool) (xs : List A)
      → ((x : A) → p x ≡ true → q x ≡ false)
      → exists_where p (delete_where q xs) ≡ exists_where p xs
  unfolding exists_where delete_where select_where
  exists-delete p q [] h = refl
  exists-delete p q (x ∷ xs) h = ground (arith, h x, exists-delete p q xs h)

  -- An update that keeps `p` keeps whether there is a row with it.
  pub exists-update :
      (p q : A → Bool) (f : A → A) (xs : List A)
      → ((x : A) → p (f x) ≡ p x)
      → exists_where p (update_where q f xs) ≡ exists_where p xs
  unfolding exists_where update_where
  exists-update p q f [] h = refl
  exists-update p q f (x ∷ xs) h = ground (arith, h x, exists-update p q f xs h)

  pub exists-insert_or_ignore :
      (p same : A → Bool) (r : A) (xs : List A)
      → exists_where p xs ≡ true
      → exists_where p (insert_or_ignore same r xs) ≡ true
  unfolding insert_or_ignore
  exists-insert_or_ignore p same r xs e = ground (arith, exists-append p xs (r ∷ []))

  module _ {κ} (P : A → Type κ) where
    pub All-append : (xs ys : List A) → All P xs → All P ys → All P (xs ++ ys)
    All-append [] ys h k = k
    All-append (x ∷ xs) ys h k = (h.0, All-append xs ys h.1 k)

    pub All-snoc : (xs : List A) (y : A) → All P xs → P y → All P (xs ++ y ∷ [])
    All-snoc xs y h k = All-append xs (y ∷ []) h (k, tt)

    pub All-update :
        (q : A → Bool) (f : A → A) (xs : List A)
        → ((x : A) → P x → P (f x))
        → All P xs
        → All P (update_where q f xs)
    unfolding update_where
    All-update q f [] h a = tt
    All-update q f (x ∷ xs) h a = elim (Bool-cases (q x)) [
      | inl e ↦ rw (e) (h x a.0, All-update q f xs h a.1)
      | inr e ↦ rw (e) (a.0, All-update q f xs h a.1)
    ]

  -- All rows that are left satisfy `Q`, if those that are kept do.
  pub All-select {κ ι} :
      (P : A → Type κ) (Q : A → Type ι) (q : A → Bool) (xs : List A)
      → ((x : A) → q x ≡ true → P x → Q x)
      → All P xs
      → All Q (select_where q xs)
  unfolding select_where
  All-select P Q q [] h a = tt
  All-select P Q q (x ∷ xs) h a = elim (Bool-cases (q x)) [
    | inl e ↦ rw (e) (h x e a.0, All-select P Q q xs h a.1)
    | inr e ↦ rw (e) (All-select P Q q xs h a.1)
  ]

  pub All-delete {κ ι} :
      (P : A → Type κ) (Q : A → Type ι) (q : A → Bool) (xs : List A)
      → ((x : A) → q x ≡ false → P x → Q x)
      → All P xs
      → All Q (delete_where q xs)
  unfolding delete_where
  All-delete P Q q xs h a =
      All-select P Q (λ x. not (q x)) xs (λ x e p. h x (ground (arith, e)) p) a

  pub All-map {κ ι} :
      (P : A → Type κ) (Q : A → Type ι) (xs : List A) → ((x : A) → P x → Q x) → All P xs → All Q xs
  All-map P Q [] h a = tt
  All-map P Q (x ∷ xs) h a = (h x a.0, All-map P Q xs h a.1)

  -- A row that is there satisfies what all rows do.
  pub All-exists {κ} :
      (P : A → Type κ) (p : A → Bool) (xs : List A)
      → All P xs
      → exists_where p xs ≡ true
      → (x : A) × P x × (p x ≡ true)
  unfolding exists_where
  All-exists P p [] a e = cc
  All-exists P p (x ∷ xs) a e = elim (Bool-cases (p x)) [
    | inl h ↦ (x, a.0, h)
    | inr h ↦ All-exists P p xs a.1 (ground (arith, h))
  ]

  pub one_where-exists :
      (p : A → Bool) (xs : List A) {r : A} → one_where p xs ≡ some r → exists_where p xs ≡ true
  unfolding one_where exists_where
  one_where-exists p [] {r} e = cc
  one_where-exists p (x ∷ xs) {r} e = ground (arith, one_where-exists p xs {r = r})

module _ {ℓ} {A : Type ℓ} where
  pub exists-snoc :
      (p : A → Bool) (xs : List A) (r : A)
      → exists_where p (xs ++ r ∷ []) ≡ (exists_where p xs || p r)
  unfolding exists_where
  exists-snoc p [] r = ground arith
  exists-snoc p (x ∷ xs) r = ground (arith, exists-snoc p xs r)

  pub one_where-snoc :
      (p : A → Bool) (xs : List A) (r : A)
      → exists_where p xs ≡ false
      → p r ≡ true
      → one_where p (xs ++ r ∷ []) ≡ some r
  unfolding exists_where one_where
  one_where-snoc p [] r e f = rw f refl
  one_where-snoc p (x ∷ xs) r e f = ground (arith, one_where-snoc p xs r)

  pub exists-snoc_new :
      (p : A → Bool) (xs : List A) (r : A) → p r ≡ true → exists_where p (xs ++ r ∷ []) ≡ true
  unfolding exists_where
  exists-snoc_new p [] r e = ground (arith, e)
  exists-snoc_new p (x ∷ xs) r e = ground (arith, exists-snoc_new p xs r e)

  pub exists-snoc_old :
      (p : A → Bool) (xs : List A) (r : A)
      → exists_where p xs ≡ true
      → exists_where p (xs ++ r ∷ []) ≡ true
  exists-snoc_old p xs r e = ground (arith, exists-append p xs (r ∷ []))

  -- Each row is found by its own key.
  pub All-self :
      (key : A → String) (xs : List A) → All (λ x. exists_where (λ y. key y === key x) xs ≡ true) xs
  unfolding exists_where
  All-self key [] = tt
  All-self key (x ∷ xs) = (
    ground (arith, ===_refl (key x)),
    All-map _ _ xs (λ z e. ground (arith, e)) (All-self key xs),
  )

  pub insert_row_cases :
      (same : A → Bool) (r : A) (rs : List A)
      → (insert_row same r rs ≡ err constraint_failed)
        ⊎ ((exists_where same rs ≡ false) × (insert_row same r rs ≡ ok (rs ++ r ∷ [])))
  unfolding insert_row
  insert_row_cases same r rs = elim (Bool-cases (exists_where same rs)) [
    | inl e ↦ inl (rw e)
    | inr e ↦ inr (e, rw e)
  ]

  pub All-insert_or_ignore {κ} :
      (P : A → Type κ) (same : A → Bool) (r : A) (rs : List A)
      → P r
      → All P rs
      → All P (insert_or_ignore same r rs)
  unfolding insert_or_ignore
  All-insert_or_ignore P same r rs p h = elim (Bool-cases (exists_where same rs)) [
    | inl e ↦ rw e h
    | inr e ↦ rw e (All-snoc P rs r h p)
  ]

  pub exists-or :
      (p q : A → Bool) (xs : List A)
      → exists_where (λ x. p x || q x) xs ≡ (exists_where p xs || exists_where q xs)
  unfolding exists_where
  exists-or p q [] = refl
  exists-or p q (x ∷ xs) = ground (arith, exists-or p q xs)
