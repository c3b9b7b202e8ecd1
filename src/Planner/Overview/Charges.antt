-- ===== src/Planner/Overview/Charges.antt =====
-- The charges of the overview: how many are available, and when the next one comes back.
use aion2_hub.Prelude.{
  ℕ, ◌+◌, ◌-◌, ◌≤◌, ◌<◌, min, ◌≡◌, refl, sym, ap, subst, ◌∙◌, inl, inr, String, Bool, true, false,
  not, ◌&&◌, Bool-cases, leb, ltb, List, [], ◌∷◌, none, some, length, arith, ◌⊎◌,
}
use aion2_hub.Prelude.Sort.{All}
use aion2_hub.Sql.{select_where, exists_where}
use aion2_hub.Sql.Laws.{All-map, exists-select, exists_never}
use aion2_hub.Sql.Orders.{
  length-order_by, exists-order_by, HeadMin, order_by-HeadMin, count_congr, count_less,
  All-selected,
}
use aion2_hub.Planner.{PlannerTemplate, PlannerChargeUse, Database}
use aion2_hub.Planner.Progress.{is_use}
use aion2_hub.Planner.Overview.{or_zero, window_ms, next_recharge, uses_in_window, charge_item}

-- Is this use of the template still in its window?
abbrev pub in_window : String → String → ℕ → ℕ → PlannerChargeUse → Bool
in_window c t window now u = is_use c t u && ltb now (u.used_at + window)

module _ (db : Database) (c t : String) (window : ℕ) where
  used : ℕ → ℕ
  used now = length (select_where (in_window c t window now) db.charge_uses)

  length-uses : (now : ℕ) → length (uses_in_window db c t window now) ≡ used now
  unfolding uses_in_window used
  length-uses now = length-order_by _ (select_where (in_window c t window now) db.charge_uses)

  module _ (now : ℕ) (u : PlannerChargeUse) (us : List PlannerChargeUse)
      (e : uses_in_window db c t window now ≡ u ∷ us) where
    first_in : in_window c t window now u ≡ true
    unfolding uses_in_window exists_where
    first_in =
        let q = in_window c t window now in
        let r = λ (v : PlannerChargeUse). not (q v) in
        let none_out : exists_where r (u ∷ us) ≡ false =
          sym (ap (exists_where r) e)
          ∙ exists-order_by r _ (select_where q db.charge_uses)
          ∙ exists-select r q db.charge_uses
          ∙ exists_never _ db.charge_uses (λ v. ground arith) in
        ground (arith, none_out)

    first_least :
        All
          (λ (v : PlannerChargeUse). in_window c t window now v ≡ true → u.used_at ≤ v.used_at)
          db.charge_uses
    unfolding uses_in_window
    first_least =
        let selected = select_where (in_window c t window now) db.charge_uses in
        All-selected _ (in_window c t window now) db.charge_uses (
          subst (λ ys. HeadMin (λ (v : PlannerChargeUse). v.used_at) ys selected) e
            (order_by-HeadMin (λ (v : PlannerChargeUse). v.used_at) selected))

    -- Until the first use in the window leaves it the uses in the window are the same.
    used_until : (later : ℕ) → now ≤ later → later < u.used_at + window → used later ≡ used now
    unfolding used
    used_until later h k =
        count_congr _ _ db.charge_uses
          (All-map _ _ db.charge_uses (λ v f. ground (arith, f)) first_least)

    -- And then there are fewer.
    used_then : used (u.used_at + window) < used now
    unfolding used uses_in_window exists_where
    used_then =
        let q = in_window c t window now in
        let r = λ (v : PlannerChargeUse). not (in_window c t window (u.used_at + window) v) in
        let out : exists_where r (u ∷ us) ≡ true = ground arith in
        count_less _ _ db.charge_uses (λ v f. ground (arith, first_in))
          (sym (exists-select r q db.charge_uses)
            ∙ sym (exists-order_by r _ (select_where q db.charge_uses))
            ∙ ap (exists_where r) e
            ∙ out)

    first_ahead : now < u.used_at + window
    first_ahead = ground (arith, first_in)

  -- What the overview shows of the rows at one time.
  Shows : ℕ → ℕ → List PlannerChargeUse → Type 0
  Shows max_stacks now rows =
      let available = max_stacks - length rows in
      ((next_recharge available max_stacks window rows ≡ none) × (available ≡ max_stacks))
      ⊎ ((at : ℕ) × (next_recharge available max_stacks window rows ≡ some at)
          × (now < at)
          × (available < max_stacks)
          × ((later : ℕ) → now ≤ later → later < at → used later ≡ used now)
          × (used at < used now))

  rows-Shows :
      (max_stacks now : ℕ) (rows : List PlannerChargeUse)
      → uses_in_window db c t window now ≡ rows
      → Shows max_stacks now rows
  unfolding Shows next_recharge
  rows-Shows max_stacks now [] e = inl (refl, omega arith)
  rows-Shows max_stacks now (u ∷ us) e =
      let available = max_stacks - length (u ∷ us) in
      elim (Bool-cases (leb max_stacks available)) [
        | inl f ↦ inl (rw f refl, ground (arith, f))
        | inr f ↦ inr (
          u.used_at + window,
          rw f refl,
          first_ahead now u us e,
          ground (arith, f),
          used_until now u us e,
          used_then now u us e,
        )
      ]

-- A charge template has as many charges available as its stacks less its uses in the window, and
-- none where there are as many uses. Either no time is given for the next charge, and all are
-- available; or the time that is given is ahead, fewer than all are available, until then
-- the uses in the window stay as many, and at that time there are fewer.
pub charge_item-next :
    (db : Database) (c : String) (now : ℕ) (t : PlannerTemplate)
    → let item = charge_item db c now t in
      (item.available + min item.used_count_in_window item.max_stacks ≡ item.max_stacks)
      × (((item.next_recharge_at ≡ none) × (item.available ≡ item.max_stacks))
          ⊎ ((at : ℕ) × (item.next_recharge_at ≡ some at)
              × (now < at)
              × (item.available < item.max_stacks)
              × ((later : ℕ)
                  → now ≤ later
                  → later < at
                  → (charge_item db c later t).used_count_in_window ≡ item.used_count_in_window)
              × ((charge_item db c at t).used_count_in_window < item.used_count_in_window)))
unfolding charge_item Shows
charge_item-next db c now t =
    let w = window_ms (or_zero t.recharge_hours) in
    (
      omega arith,
      elim (rows-Shows db c t.id w (or_zero t.max_stacks) now _ refl) [
        | inl (e, f) ↦ inl (e, f)
        | inr (at, e, f, g, h, k) ↦ inr (
          at,
          e,
          f,
          g,
          λ later p q.
              rw (length-uses db c t.id w later, length-uses db c t.id w now) (h later p q),
          rw (length-uses db c t.id w at, length-uses db c t.id w now) k,
        )
      ],
    )
