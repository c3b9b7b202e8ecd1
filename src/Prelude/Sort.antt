-- ===== src/Prelude/Sort.antt =====
-- JavaScript's `sort` by a number: stable and ascending. Selections are the sub-collections of a
-- list in its order.
use mathlib.Core.List.{Perm}
use mathlib.Core.List.Perm
use aion2_hub.Prelude.{
  ℕ, suc, ◌+◌, ◌≤◌, ◌≡◌, refl, inl, inr, List, [], ◌∷◌, if◌then◌else◌, leb, length, arith,
  Bool-cases,
}

-- All of a list satisfies a predicate.
abbrev pub All {ℓ κ} : {A : Type ℓ} → (A → Type κ) → List A → Type κ
All P [] = Unit
All P (x ∷ xs) = P x × All P xs

pub data Selection {ℓ} {A : Type ℓ} : List A → List A → Type ℓ where
  nothing : Selection [] []
  skip : {s l : List A} (x : A) → Selection s l → Selection s (x ∷ l)
  take : {s l : List A} (x : A) → Selection s l → Selection (x ∷ s) (x ∷ l)

pub Selection-nil {ℓ} : {A : Type ℓ} (l : List A) → Selection [] l
Selection-nil [] = Selection.nothing
Selection-nil (x ∷ l) = Selection.skip x (Selection-nil l)

pub Selection-All {ℓ κ} :
    {A : Type ℓ} (P : A → Type κ) {s l : List A} → Selection s l → All P l → All P s
Selection-All P Selection.nothing h = h
Selection-All P (Selection.skip x r) h = Selection-All P r h.1
Selection-All P (Selection.take x r) h = (h.0, Selection-All P r h.1)

-- A selection of a selection is one of the whole.
pub Selection-trans {ℓ} :
    {A : Type ℓ} {a b c : List A} → Selection a b → Selection b c → Selection a c
Selection-trans r Selection.nothing = r
Selection-trans r (Selection.skip x q) = Selection.skip x (Selection-trans r q)
Selection-trans (Selection.skip x r) (Selection.take x' q) = Selection.skip x (Selection-trans r q)
Selection-trans (Selection.take x r) (Selection.take x' q) = Selection.take x (Selection-trans r q)

module _ {ℓ} {A : Type ℓ} (key : A → ℕ) where
  pub insert_by : A → List A → List A
  insert_by x [] = x ∷ []
  insert_by x (y ∷ ys) = if leb (key x) (key y) then x ∷ y ∷ ys else y ∷ insert_by x ys

  unfoldable pub sort_by : List A → List A
  unfolding insert_by
  sort_by [] = []
  sort_by (x ∷ xs) = insert_by x (sort_by xs)

  -- Every element's key is at most the keys behind it.
  abbrev pub IsAscending : List A → Type 0
  IsAscending [] = Unit {0}
  IsAscending (x ∷ xs) = All (λ y. key x ≤ key y) xs × IsAscending xs

  All-insert_by {κ} :
      (P : A → Type κ) (x : A) (xs : List A) → P x → All P xs → All P (insert_by x xs)
  unfolding insert_by
  All-insert_by P x [] p h = (p, tt)
  All-insert_by P x (y ∷ ys) p h = elim (Bool-cases (leb (key x) (key y))) [
    | inl e ↦ rw e (p, h)
    | inr e ↦ rw e (h.0, All-insert_by P x ys p h.1)
  ]

  pub All-sort_by {κ} : (P : A → Type κ) (xs : List A) → All P xs → All P (sort_by xs)
  unfolding sort_by
  All-sort_by P [] h = tt
  All-sort_by P (x ∷ xs) h = All-insert_by P x (sort_by xs) h.0 (All-sort_by P xs h.1)

  All-le_trans : (a b : ℕ) (xs : List A) → a ≤ b → All (λ y. b ≤ key y) xs → All (λ y. a ≤ key y) xs
  All-le_trans a b [] h k = tt
  All-le_trans a b (x ∷ xs) h k = (omega arith, All-le_trans a b xs h k.1)

  insert_by-IsAscending : (x : A) (xs : List A) → IsAscending xs → IsAscending (insert_by x xs)
  unfolding insert_by
  insert_by-IsAscending x [] h = (tt, tt)
  insert_by-IsAscending x (y ∷ ys) h = elim (Bool-cases (leb (key x) (key y))) [
    | inl e ↦
        let le : key x ≤ key y = ground arith in
        rw e ((le, All-le_trans (key x) (key y) ys le h.0), h)
    | inr e ↦
        rw e (
          All-insert_by (λ z. key y ≤ key z) x ys (ground arith) h.0,
          insert_by-IsAscending x ys h.1,
        )
  ]

  pub sort_by-IsAscending : (xs : List A) → IsAscending (sort_by xs)
  unfolding sort_by
  sort_by-IsAscending [] = tt
  sort_by-IsAscending (x ∷ xs) = insert_by-IsAscending x (sort_by xs) (sort_by-IsAscending xs)

  insert_by-perm : (x : A) (xs : List A) → Perm (insert_by x xs) (x ∷ xs)
  unfolding insert_by
  insert_by-perm x [] = Perm.rfl
  insert_by-perm x (y ∷ ys) = elim (Bool-cases (leb (key x) (key y))) [
    | inl e ↦ rw e Perm.rfl
    | inr e ↦ rw e (Perm.trans (Perm.cons y (insert_by-perm x ys)) (Perm.swap x y ys))
  ]

  pub sort_by-perm : (xs : List A) → Perm (sort_by xs) xs
  unfolding sort_by
  sort_by-perm [] = Perm.rfl
  sort_by-perm (x ∷ xs) = Perm.trans (insert_by-perm x (sort_by xs)) (Perm.cons x (sort_by-perm xs))

  -- The front of an ascending list takes what is not above its keys.
  insert_by_front : (x : A) (xs : List A) → All (λ y. key x ≤ key y) xs → insert_by x xs ≡ x ∷ xs
  unfolding insert_by
  insert_by_front x [] h = refl
  insert_by_front x (y ∷ ys) h = ground arith

  Selection-insert_by_skip : (x : A) {s l : List A} → Selection s l → Selection s (insert_by x l)
  unfolding insert_by
  Selection-insert_by_skip x Selection.nothing = Selection.skip x Selection.nothing
  Selection-insert_by_skip x (Selection.skip {l = l} y r) =
      elim (Bool-cases (leb (key x) (key y))) [
        | inl e ↦ rw e (Selection.skip x (Selection.skip y r))
        | inr e ↦ rw e (Selection.skip y (Selection-insert_by_skip x r))
      ]
  Selection-insert_by_skip x (Selection.take {l = l} y r) =
      elim (Bool-cases (leb (key x) (key y))) [
        | inl e ↦ rw e (Selection.skip x (Selection.take y r))
        | inr e ↦ rw e (Selection.take y (Selection-insert_by_skip x r))
      ]

  Selection-insert_by :
      (x : A) {s l : List A}
      → Selection s l
      → IsAscending l
      → Selection (insert_by x s) (insert_by x l)
  unfolding insert_by
  Selection-insert_by x Selection.nothing h = Selection.take x Selection.nothing
  Selection-insert_by x (Selection.skip {s = s} {l = l} y r) h =
      elim (Bool-cases (leb (key x) (key y))) [
        | inl e ↦
            let le : key x ≤ key y = ground arith in
            let all =
              Selection-All (λ z. key x ≤ key z) r (All-le_trans (key x) (key y) l le h.0) in
            rw (e, insert_by_front x s all) (Selection.take x (Selection.skip y r))
        | inr e ↦ rw e (Selection.skip y (Selection-insert_by x r h.1))
      ]
  Selection-insert_by x (Selection.take {s = s} {l = l} y r) h =
      elim (Bool-cases (leb (key x) (key y))) [
        | inl e ↦ rw e (Selection.take x (Selection.take y r))
        | inr e ↦ rw e (Selection.take y (Selection-insert_by x r h.1))
      ]

  -- What is selected before sorting is selected after.
  pub Selection-sort_by : {s l : List A} → Selection s l → Selection (sort_by s) (sort_by l)
  unfolding sort_by
  Selection-sort_by Selection.nothing = Selection.nothing
  Selection-sort_by (Selection.skip {l = l} x r) = Selection-insert_by_skip x (Selection-sort_by r)
  Selection-sort_by (Selection.take {l = l} x r) =
      Selection-insert_by x (Selection-sort_by r) (sort_by-IsAscending l)

  abbrev pub total : List A → ℕ
  total [] = 0
  total (x ∷ xs) = key x + total xs

  insert_by-sums :
      (x : A) (xs : List A)
      → (total (insert_by x xs) ≡ key x + total xs) × (length (insert_by x xs) ≡ suc (length xs))
  unfolding insert_by
  insert_by-sums x [] = (refl, refl)
  insert_by-sums x (y ∷ ys) = ground (arith, insert_by-sums x ys)

  -- Sorting keeps the total and the length.
  pub sort_by-sums :
      (xs : List A) → (total (sort_by xs) ≡ total xs) × (length (sort_by xs) ≡ length xs)
  unfolding sort_by
  sort_by-sums [] = (refl, refl)
  sort_by-sums (x ∷ xs) = omega (arith, insert_by-sums x (sort_by xs), sort_by-sums xs)
