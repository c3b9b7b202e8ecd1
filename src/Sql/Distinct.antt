-- ===== src/Sql/Distinct.antt =====
-- Rows of a table of which no two share a key, and the statements that keep them so: the primary
-- keys and the unique indexes of the schema.
use aion2_hub.Prelude.{
  ◌≡◌, inl, inr, String, ◌===◌, Bool, false, Bool-cases, List, [], ◌∷◌, ◌++◌, arith,
}
use aion2_hub.Prelude.Sort.{All}
use aion2_hub.Sql.{
  Result, ok, err, select_where, delete_where, update_where, exists_where, insert_row,
  insert_or_ignore,
}
use aion2_hub.Sql.Laws.{All-append, All-select, insert_row_cases}

-- What holds of a value, if there is no error.
abbrev pub IfOk {ℓ κ} : {A : Type ℓ} → (A → Type κ) → Result A → Type κ
IfOk P (ok a) = P a
IfOk P (err e) = Unit

pub IfOk-ok {ℓ κ} : {A : Type ℓ} (P : A → Type κ) {r : Result A} {a : A} → r ≡ ok a → IfOk P r → P a
IfOk-ok P e h = rw e at h

module _ {A : Type 0} where
  -- Has a row the key of the row that is written?
  abbrev pub same_key : (A → String) → A → A → Bool
  same_key key r s = key s === key r

  module _ (same : A → A → Bool) where
    -- No row has the key of an earlier one.
    abbrev pub IsFresh : List A → Type 0
    IsFresh [] = Unit
    IsFresh (r ∷ rs) = All (λ s. same s r ≡ false) rs × IsFresh rs

    pub select-IsFresh : (p : A → Bool) (rs : List A) → IsFresh rs → IsFresh (select_where p rs)
    unfolding select_where
    select-IsFresh p [] f = tt
    select-IsFresh p (r ∷ rs) f = elim (Bool-cases (p r)) [
      | inl e ↦ rw e (
        All-select (λ s. same s r ≡ false) (λ s. same s r ≡ false) p rs (λ s u h. h) f.0,
        select-IsFresh p rs f.1,
      )
      | inr e ↦ rw e (select-IsFresh p rs f.1)
    ]

    pub delete-IsFresh : (p : A → Bool) (rs : List A) → IsFresh rs → IsFresh (delete_where p rs)
    unfolding delete_where
    delete-IsFresh p rs f = select-IsFresh _ rs f

    none-same :
        (r : A) (rs : List A) → exists_where (same r) rs ≡ false → All (λ s. same r s ≡ false) rs
    unfolding exists_where
    none-same r [] e = tt
    none-same r (s ∷ rs) e = (ground (arith, e), none-same r rs (ground (arith, e)))

    snoc-all :
        (r : A) (rs : List A) → IsFresh rs → All (λ s. same r s ≡ false) rs → IsFresh (rs ++ r ∷ [])
    snoc-all r [] f h = (tt, tt)
    snoc-all r (s ∷ rs) f h =
        (All-append (λ t. same t s ≡ false) rs (r ∷ []) f.0 (h.0, tt), snoc-all r rs f.1 h.1)

    pub snoc-IsFresh :
        (r : A) (rs : List A)
        → IsFresh rs
        → exists_where (same r) rs ≡ false
        → IsFresh (rs ++ r ∷ [])
    snoc-IsFresh r rs f e = snoc-all r rs f (none-same r rs e)

    pub insert-IsFresh :
        (r : A) (rs : List A) → IsFresh rs → IfOk IsFresh (insert_row (same r) r rs)
    insert-IsFresh r rs f = elim (insert_row_cases (same r) r rs) [
      | inl e ↦ rw e tt
      | inr (fresh, e) ↦ rw e (snoc-IsFresh r rs f fresh)
    ]

    pub insert_or_ignore-IsFresh :
        (r : A) (rs : List A) → IsFresh rs → IsFresh (insert_or_ignore (same r) r rs)
    unfolding insert_or_ignore
    insert_or_ignore-IsFresh r rs f = elim (Bool-cases (exists_where (same r) rs)) [
      | inl e ↦ rw e f
      | inr e ↦ rw e (snoc-IsFresh r rs f e)
    ]

    -- An update that leaves the columns of the key keeps the keys apart.
    module _ (f : A → A) (keeps : (r s : A) → same (f r) s ≡ same r s)
        (keeps_other : (r s : A) → same r (f s) ≡ same r s) where
      update-All :
          (p : A → Bool) (r : A) (rs : List A)
          → All (λ s. same s r ≡ false) rs
          → All (λ s. same s r ≡ false) (update_where p f rs)
      unfolding update_where
      update-All p r [] h = tt
      update-All p r (s ∷ rs) h = elim (Bool-cases (p s)) [
        | inl e ↦ rw e (rw (keeps s r) h.0, update-All p r rs h.1)
        | inr e ↦ rw e (h.0, update-All p r rs h.1)
      ]

      changed-All :
          (r : A) (rs : List A)
          → All (λ s. same s r ≡ false) rs
          → All (λ s. same s (f r) ≡ false) rs
      changed-All r [] h = tt
      changed-All r (s ∷ rs) h = (rw (keeps_other s r) h.0, changed-All r rs h.1)

      pub update-IsFresh : (p : A → Bool) (rs : List A) → IsFresh rs → IsFresh (update_where p f rs)
      unfolding update_where
      update-IsFresh p [] h = tt
      update-IsFresh p (r ∷ rs) h = elim (Bool-cases (p r)) [
        | inl e ↦
            rw e
              (changed-All r (update_where p f rs) (update-All p r rs h.0), update-IsFresh p rs h.1)
        | inr e ↦ rw e (update-All p r rs h.0, update-IsFresh p rs h.1)
      ]
