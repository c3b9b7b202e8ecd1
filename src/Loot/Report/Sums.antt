-- ===== src/Loot/Report/Sums.antt =====
-- The amounts of the runs in the weekly report of
-- apps/desktop/src/main/storage/domains/loot.ts, against the drops and costs themselves.
use aion2_hub.Prelude.{
  ℕ, ◌+◌, ◌*◌, ◌≡◌, refl, subst, inl, inr, String, ◌===◌, ===_iff, ===_comm, true, false,
  Bool-cases, List, [], ◌∷◌, Option, none, some, if◌then◌else◌, arith,
}
use aion2_hub.Prelude.Sort.{All}
use aion2_hub.Text.{is_empty}
use aion2_hub.Sql.{exists_where}
use aion2_hub.Sql.Sums.{sum_by, IsDistinct}
use aion2_hub.Loot.{LootRunCostKind, LootRun, LootRunDrop, LootRunCost}
use aion2_hub.Loot.Report.{
  Prices, price_of, is_among, add_to, amount_of, Amounts, priced, priced_item, drop_amounts,
  cost_amount, cost_amounts, zero_amounts,
}

-- What an item is worth: nothing if it has no identity or no price.
abbrev pub priced_value : Option ℕ → ℕ → ℕ
priced_value none qty = 0
priced_value (some price) qty = qty * price

abbrev pub item_value : Prices → Option String → ℕ → ℕ
item_value prices none qty = 0
item_value prices (some id) qty = if is_empty id then 0 else priced_value (price_of prices id) qty

abbrev pub drop_value : Prices → LootRunDrop → ℕ
drop_value prices d = item_value prices d.item_id d.qty

abbrev pub cost_value : Prices → LootRunCost → ℕ
cost_value prices c = elim c.kind [
  | LootRunCostKind.kinah ↦ c.kinah
  | LootRunCostKind.item ↦ item_value prices c.item_id c.qty
]

amount_of-add_to :
    (id j : String) (n : ℕ) (by : List (String × ℕ))
    → amount_of (add_to id n by) j ≡ (if id === j then amount_of by j + n else amount_of by j)
unfolding amount_of add_to
amount_of-add_to id j n [] = ground arith
amount_of-add_to id j n ((k, v) ∷ by) =
    ground (arith, amount_of-add_to id j n by, ===_iff k id, ===_iff k j, ===_iff id j)

amount_of-zero : (runs : List LootRun) (j : String) → amount_of (zero_amounts runs) j ≡ 0
unfolding amount_of
amount_of-zero [] j = refl
amount_of-zero (r ∷ rs) j = ground (arith, amount_of-zero rs j)

abbrev pub run_id : LootRun → String
run_id r = r.id

-- The amounts of all runs.
abbrev pub amounts : List (String × ℕ) → List LootRun → ℕ
amounts by runs = sum_by (λ (r : LootRun). amount_of by r.id) runs

pub amounts-zero : (all runs : List LootRun) → amounts (zero_amounts all) runs ≡ 0
amounts-zero all [] = refl
amounts-zero all (r ∷ rs) = omega (arith, amount_of-zero all r.id, amounts-zero all rs)

amounts-absent :
    (id : String) (n : ℕ) (by : List (String × ℕ)) (runs : List LootRun)
    → is_among runs id ≡ false
    → amounts (add_to id n by) runs ≡ amounts by runs
unfolding exists_where
amounts-absent id n by [] e = refl
amounts-absent id n by (r ∷ rs) e =
    ground (arith, amounts-absent id n by rs, amount_of-add_to id r.id n by, ===_comm id r.id)

amounts-add_to :
    (id : String) (n : ℕ) (by : List (String × ℕ)) (runs : List LootRun)
    → IsDistinct run_id runs
    → is_among runs id ≡ true
    → amounts (add_to id n by) runs ≡ amounts by runs + n
unfolding exists_where
amounts-add_to id n by [] d e = cc
amounts-add_to id n by (r ∷ rs) d e = elim (Bool-cases (r.id === id)) [
  | inl h ↦
      let absent : is_among rs id ≡ false =
        subst (λ (k : String). exists_where (λ (x : LootRun). x.id === k) rs ≡ false)
          ((===_iff r.id id).0 h) d.0 in
      ground
        (arith, amounts-absent id n by rs absent, amount_of-add_to id r.id n by, ===_comm id r.id)
  | inr h ↦
      ground (arith, amounts-add_to id n by rs d.1, amount_of-add_to id r.id n by, ===_comm id r.id)
]

module _ (prices : Prices) (runs : List LootRun) (distinct : IsDistinct run_id runs) where
  amounts-priced :
      (price : Option ℕ) (run id : String) (qty : ℕ) (a : Amounts)
      → is_among runs run ≡ true
      → amounts (priced price run id qty a).by_run runs
        ≡ amounts a.by_run runs + priced_value price qty
  amounts-priced none run id qty a e = omega arith
  amounts-priced (some p) run id qty a e = amounts-add_to run (qty * p) a.by_run runs distinct e

  amounts-priced_item :
      (item_id : Option String) (run : String) (qty : ℕ) (a : Amounts)
      → is_among runs run ≡ true
      → amounts (priced_item prices item_id run qty a).by_run runs
        ≡ amounts a.by_run runs + item_value prices item_id qty
  amounts-priced_item none run qty a e = omega arith
  amounts-priced_item (some id) run qty a e = elim (Bool-cases (is_empty id)) [
    | inl h ↦ rw h (omega arith)
    | inr h ↦ rw h (amounts-priced (price_of prices id) run id qty a e)
  ]

  pub amounts-drops :
      (ds : List LootRunDrop) (a : Amounts)
      → All (λ (d : LootRunDrop). is_among runs d.run_id ≡ true) ds
      → amounts (drop_amounts prices ds a).by_run runs
        ≡ amounts a.by_run runs + sum_by (drop_value prices) ds
  unfolding drop_amounts
  amounts-drops [] a h = omega arith
  amounts-drops (d ∷ ds) a h = omega (
    arith,
    amounts-drops ds (priced_item prices d.item_id d.run_id d.qty a) h.1,
    amounts-priced_item d.item_id d.run_id d.qty a h.0,
  )

  amounts-cost :
      (kind : LootRunCostKind) (c : LootRunCost) (a : Amounts)
      → c.kind ≡ kind
      → is_among runs c.run_id ≡ true
      → amounts (cost_amount prices c a).by_run runs ≡ amounts a.by_run runs + cost_value prices c
  amounts-cost LootRunCostKind.kinah c a k e =
      rw k (amounts-add_to c.run_id c.kinah a.by_run runs distinct e)
  amounts-cost LootRunCostKind.item c a k e =
      rw k (amounts-priced_item c.item_id c.run_id c.qty a e)

  pub amounts-costs :
      (cs : List LootRunCost) (a : Amounts)
      → All (λ (c : LootRunCost). is_among runs c.run_id ≡ true) cs
      → amounts (cost_amounts prices cs a).by_run runs
        ≡ amounts a.by_run runs + sum_by (cost_value prices) cs
  unfolding cost_amounts
  amounts-costs [] a h = omega arith
  amounts-costs (c ∷ cs) a h =
      omega (arith, amounts-costs cs (cost_amount prices c a) h.1, amounts-cost c.kind c a refl h.0)
