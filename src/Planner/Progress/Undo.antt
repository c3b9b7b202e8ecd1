-- ===== src/Planner/Progress/Undo.antt =====
-- Taking back a charge: `undoCharge` after `useCharge`.
use aion2_hub.Prelude.{
  ℕ, ◌<◌, ◌≡◌, refl, ap, String, ◌===◌, ===_refl, Bool, true, false, List, [], ◌∷◌, ◌++◌, Option,
  some, leb, arith, inl, inr, Bool-cases,
}
use aion2_hub.Prelude.Sort.{All}
use aion2_hub.Sql.{ok, exists_where, select_where, delete_where}
use aion2_hub.Planner.{PlannerChargeUse, Database, resolve_date}
use aion2_hub.Planner.Progress.{
  is_use, new_use, use_charge, insert_charge_use, latest_use, undo_charge,
}

module _ {ℓ} {A : Type ℓ} where
  select-snoc :
      (p : A → Bool) (xs : List A) (r : A)
      → p r ≡ true
      → select_where p (xs ++ r ∷ []) ≡ select_where p xs ++ r ∷ []
  unfolding select_where
  select-snoc p [] r e = rw e refl
  select-snoc p (x ∷ xs) r e = elim (Bool-cases (p x)) [
    | inl f ↦ rw (f, select-snoc p xs r e) refl
    | inr f ↦ rw (f, select-snoc p xs r e) refl
  ]

  -- A new row is deleted by a key that it has alone.
  delete-snoc :
      (p : A → Bool) (xs : List A) (r : A)
      → exists_where p xs ≡ false
      → p r ≡ true
      → delete_where p (xs ++ r ∷ []) ≡ xs
  unfolding delete_where select_where exists_where
  delete-snoc p [] r e f = rw f refl
  delete-snoc p (x ∷ xs) r e f = elim (Bool-cases (p x)) [
    | inl g ↦ absurd (ground (arith, e, g))
    | inr g ↦ rw (g) (ap (λ ys. x ∷ ys) (delete-snoc p xs r (ground (arith, e, g)) f))
  ]

latest_use-snoc :
    (us : List PlannerChargeUse) (r : PlannerChargeUse)
    → All (λ (u : PlannerChargeUse). u.used_at < r.used_at) us
    → latest_use (us ++ r ∷ []) ≡ some r
unfolding latest_use
latest_use-snoc [] r h = refl
latest_use-snoc (u ∷ us) r h =
    let f : leb u.used_at r.used_at ≡ true = ground (arith, h.0) in
    rw (latest_use-snoc us r h.1, f) refl

-- Using a charge with a new identity, at a time after all uses of the template by the character, succeeds; and to take back a charge after that
-- takes back this use and leaves the database as it was.
pub use_charge-undo_charge :
    (parse : String → Option ℕ) (db : Database) (c t : String) (iso : Option String) (clock : ℕ)
    (id : String)
    → exists_where (λ (u : PlannerChargeUse). u.id === id) db.charge_uses ≡ false
    → All
        (λ (u : PlannerChargeUse). u.used_at < resolve_date parse iso clock)
        (select_where (is_use c t) db.charge_uses)
    → (after : Database) × (use_charge parse db c t iso clock id ≡ ok after)
      × (undo_charge after c t ≡ (some id, db))
unfolding use_charge insert_charge_use undo_charge
use_charge-undo_charge parse db c t iso clock id fresh late =
    let row = new_use c t (resolve_date parse iso clock) id in
    let mine : is_use c t row ≡ true = ground (arith, ===_refl c, ===_refl t) in
    (
      record db { charge_uses = db.charge_uses ++ row ∷ [] },
      rw fresh refl,
      rw
          (
            select-snoc (is_use c t) db.charge_uses row mine,
            latest_use-snoc (select_where (is_use c t) db.charge_uses) row late,
            delete-snoc (λ (v : PlannerChargeUse). v.id === id) db.charge_uses row fresh
                (===_refl id),
            undo_charge,
          )
          refl,
    )
