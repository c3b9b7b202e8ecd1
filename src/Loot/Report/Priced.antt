-- ===== src/Loot/Report/Priced.antt =====
-- The weekly report of apps/desktop/src/main/storage/domains/loot.ts at the latest prices.
use aion2_hub.Prelude.{
  ℕ, ◌*◌, ◌≡◌, refl, sym, ap, ◌∙◌, subst, inl, inr, String, ◌&&◌, ◌===◌, Bool-cases, List, [], ◌∷◌,
  ◌++◌, length, Option, none, some, if◌then◌else◌,
}
use aion2_hub.Text.{trim, is_empty}
use aion2_hub.Sql.{
  Result, ok, err, bad_request, exists_where, one_where, select_where, delete_where, order_by,
}
use aion2_hub.Sql.Laws.{select_congr}
use aion2_hub.Sql.Sums.{sum_by}
use aion2_hub.Economy.{EconomyPrice, text_leb}
use aion2_hub.Economy.Watches.{price_before, first_prices, get_latest_prices_by_item_id}
use aion2_hub.Loot.{LootRunCostKind, LootRun, LootRunDrop, LootRunCost, LootDb}
use aion2_hub.Loot.Report.{
  Prices, price_of, price_pair, unique_texts, drop_item_ids, cost_item_ids, prices_for,
  LootWeeklyReport,
}
use aion2_hub.Loot.Report.Sums.{priced_value, item_value, drop_value, cost_value}
use aion2_hub.Loot.Report.Contents.{IsSummary}
use aion2_hub.Loot.Report.Totals.{drops_of, costs_of, IsReport}
use aion2_hub.Loot.Report.Latest.{
  newer, is_named, price_in, latest_price, read_price, first_prices-first,
}
use aion2_hub.Loot.Report.Asked.{asked-is_named}

read_price-elim :
    (o : Option (String × ℕ))
    → ◌≡◌ {A = Option ℕ} (elim o [ none ↦ none | some e ↦ some e.1 ]) (read_price o)
read_price-elim none = refl
read_price-elim (some e) = refl

price_of-read :
    (prices : Prices) (id : String)
    → price_of prices id ≡ read_price (one_where (price_pair id) prices)
unfolding price_of
price_of-read prices id = read_price-elim (one_where (price_pair id) prices)

before-newer : price_before ≡ newer
unfolding price_before text_leb
before-newer = refl

module _ (db : LootDb) (drops : List LootRunDrop) (costs : List LootRunCost) (id : String) where
  abbrev asked : List String
  asked = unique_texts (drop_item_ids drops ++ cost_item_ids costs) []

  abbrev code_rows : String → List EconomyPrice
  code_rows server =
      select_where
        (λ (p : EconomyPrice).
          p.server === trim server
          && exists_where (λ i. i === p.item_id) (delete_where is_empty asked))
        db.economy.prices

  first-latest :
      (server : String)
      → price_of (first_prices (order_by price_before (code_rows server)) []) id
        ≡ price_in (
            one_where
              (λ (p : EconomyPrice). p.item_id === id)
              (order_by newer (
                select_where
                  (λ (p : EconomyPrice). p.server === trim server && is_named drops costs p.item_id)
                  db.economy.prices)))
  unfolding one_where
  first-latest server =
      price_of-read (first_prices (order_by price_before (code_rows server)) []) id
      ∙ first_prices-first (order_by price_before (code_rows server)) [] id
      ∙ ap
          (λ rows.
            price_in
              (one_where (λ (p : EconomyPrice). p.item_id === id) (order_by price_before rows)))
          (select_congr _ _ db.economy.prices
            (λ p. ap (λ b. p.server === trim server && b) (asked-is_named drops costs p.item_id)))
      ∙ ap
          (λ before. price_in (
            one_where (λ (p : EconomyPrice). p.item_id === id)
              (order_by before (
                select_where
                  (λ (p : EconomyPrice). p.server === trim server && is_named drops costs p.item_id)
                  db.economy.prices))))
          before-newer

  nothing_priced :
      (prices : Prices) → ◌≡◌ {A = Result Prices} (ok []) (ok prices) → price_of prices id ≡ none
  unfolding price_of one_where
  nothing_priced prices e =
      let same : [] ≡ prices = cc in subst (λ ps. price_of ps id ≡ none) same refl

  -- The prices that the code looks up are the latest ones.
  pub price_of-latest :
      (server : Option String) (prices : Prices)
      → prices_for db server asked ≡ ok prices
      → price_of prices id ≡ latest_price db server drops costs id
  unfolding get_latest_prices_by_item_id
  price_of-latest none prices e = nothing_priced prices e
  price_of-latest (some server) prices e = elim (Bool-cases (is_empty server)) [
    | inl f ↦ rw f (nothing_priced prices (rw f at e))
    | inr f ↦ elim (Bool-cases (is_empty (trim server))) [
      | inl g ↦
          let bad : ◌≡◌ {A = Result Prices} (err bad_request) (ok prices) = rw (f, g) at e in
          absurd cc
      | inr g ↦
          let given : ◌≡◌ {A = Result Prices}
              (ok (first_prices (order_by price_before (code_rows server)) [])) (ok prices) =
            rw (f, g) at e in
          let same : first_prices (order_by price_before (code_rows server)) [] ≡ prices = cc in
          rw f (ap (λ ps. price_of ps id) (sym same) ∙ first-latest server)
    ]
  ]

-- What an item is worth at a price that may be missing.
abbrev pub at_price : Option ℕ → ℕ → ℕ
at_price none qty = 0
at_price (some price) qty = qty * price

-- What an amount of an item is worth, nothing if it has no identity.
abbrev pub worth : (String → Option ℕ) → Option String → ℕ → ℕ
worth price none qty = 0
worth price (some id) qty = if is_empty id then 0 else at_price (price id) qty

abbrev pub cost_worth : (String → Option ℕ) → LootRunCost → ℕ
cost_worth price c = elim c.kind [
  | LootRunCostKind.kinah ↦ c.kinah
  | LootRunCostKind.item ↦ worth price c.item_id c.qty
]

-- The report is right about the runs, at the latest prices of its server.
pub record IsWeekReport (runs : List LootRun) (db : LootDb) (report : LootWeeklyReport)
    : Type 0 where
  pub runs_counted : report.totals.runs ≡ length runs
  pub seconds_added : report.totals.seconds ≡ sum_by (λ (r : LootRun). r.seconds) runs
  pub value_added :
      report.totals.value
      ≡ sum_by
          (λ (d : LootRunDrop).
            worth
              (latest_price db report.server (drops_of runs db) (costs_of runs db))
              d.item_id
              d.qty)
          (drops_of runs db)
  pub cost_added :
      report.totals.cost
      ≡ sum_by
          (cost_worth (latest_price db report.server (drops_of runs db) (costs_of runs db)))
          (costs_of runs db)
  pub summary : IsSummary report

sum_by-congr :
    {A : Type 0} (f g : A → ℕ) (xs : List A) → ((x : A) → f x ≡ g x) → sum_by f xs ≡ sum_by g xs
sum_by-congr f g [] h = refl
sum_by-congr f g (x ∷ xs) h = rw (h x, sum_by-congr f g xs h) refl

module _ (prices : Prices) (price : String → Option ℕ)
    (h : (id : String) → price_of prices id ≡ price id) where
  at_price-of : (o : Option ℕ) (qty : ℕ) → priced_value o qty ≡ at_price o qty
  at_price-of none qty = refl
  at_price-of (some n) qty = refl

  item_value-worth : (o : Option String) (qty : ℕ) → item_value prices o qty ≡ worth price o qty
  item_value-worth none qty = refl
  item_value-worth (some id) qty = elim (Bool-cases (is_empty id)) [
    | inl e ↦ rw e refl
    | inr e ↦ rw e (at_price-of (price_of prices id) qty ∙ ap (λ o. at_price o qty) (h id))
  ]

  cost_value-worth :
      (kind : LootRunCostKind) (kinah : ℕ) (o : Option String) (qty : ℕ)
      → ◌≡◌ {A = ℕ}
          (elim kind [
            | LootRunCostKind.kinah ↦ kinah
            | LootRunCostKind.item ↦ item_value prices o qty
          ])
          (elim kind [ LootRunCostKind.kinah ↦ kinah | LootRunCostKind.item ↦ worth price o qty ])
  cost_value-worth LootRunCostKind.kinah kinah o qty = refl
  cost_value-worth LootRunCostKind.item kinah o qty = item_value-worth o qty

pub IsReport-IsWeekReport :
    {runs : List LootRun} {db : LootDb} {report : LootWeeklyReport}
    → IsReport runs db report
    → IsWeekReport runs db report
IsReport-IsWeekReport {runs} {db} {report} r =
    let drops = drops_of runs db in
    let costs = costs_of runs db in
    let price = latest_price db report.server drops costs in
    let latest =
      λ (id : String). price_of-latest db drops costs id report.server r.prices r.priced in
    record {
      runs_counted = r.totals.runs_counted;
      seconds_added = r.totals.seconds_added;
      value_added =
          r.totals.value_added
          ∙ sum_by-congr (drop_value r.prices) _ drops
              (λ d. item_value-worth r.prices price latest d.item_id d.qty);
      cost_added =
          r.totals.cost_added
          ∙ sum_by-congr (cost_value r.prices) _ costs
              (λ c. cost_value-worth r.prices price latest c.kind c.kinah c.item_id c.qty);
      summary = r.summary;
    }
