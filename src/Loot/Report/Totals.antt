-- ===== src/Loot/Report/Totals.antt =====
-- The totals of the weekly report of apps/desktop/src/main/storage/domains/loot.ts against the
-- rows of the week.
use aion2_hub.Prelude.{
  ℕ, ◌+◌, ◌≡◌, refl, ap, subst, ◌∙◌, inl, inr, String, Bool, true, false, Bool-cases, List, [], ◌∷◌,
  ◌++◌, length, Option, none, some, if◌then◌else◌, arith,
}
use aion2_hub.Prelude.Sort.{All}
use aion2_hub.Text.{trim, is_empty}
use aion2_hub.Text.Trims.{trim-trim}
use aion2_hub.Sql.Appends.{select-none}
use aion2_hub.Economy.Watches.{get_latest_prices_by_item_id}
use aion2_hub.Sql.{Result, ok, err, Result-cases, bad_request, exists_where, select_where}
use aion2_hub.Sql.Laws.{exists_never}
use aion2_hub.Sql.Sums.{sum_by, IsDistinct}
use aion2_hub.Economy.{trimmed}
use aion2_hub.Loot.{LootRun, LootRunDrop, LootRunCost, LootDb}
use aion2_hub.Loot.Report.{
  Prices, is_among, effective_server, drop_item_ids, cost_item_ids, unique_texts, prices_for,
  amount_of, drop_amounts, cost_amounts, zero_amounts, LootTotals, no_totals, count_run,
  add_content, count_runs, LootWeeklyReport, report_of, report_for, empty_report,
}
use aion2_hub.Loot.Report.Sums.{
  drop_value, cost_value, run_id, amounts, amounts-zero, amounts-drops, amounts-costs,
}
use aion2_hub.Loot.Report.Contents.{IsSummary, report_of-IsSummary}

count_runs-totals :
    (values costs : List (String × ℕ)) (runs : List LootRun) (t : LootTotals)
    (per : List (String × LootTotals))
    → let counted = (count_runs values costs runs (t, per)).0 in
      (counted.runs ≡ t.runs + length runs)
      × (counted.seconds ≡ t.seconds + sum_by (λ (r : LootRun). r.seconds) runs)
      × (counted.value ≡ t.value + amounts values runs)
      × (counted.cost ≡ t.cost + amounts costs runs)
unfolding count_runs
count_runs-totals values costs [] t per = omega arith
count_runs-totals values costs (r ∷ rs) t per = omega (
  arith,
  count_runs-totals values costs rs
      (count_run r.seconds (amount_of values r.id) (amount_of costs r.id) t)
      (add_content r.content r.seconds (amount_of values r.id) (amount_of costs r.id) per),
)

-- The drops and the costs of some runs.
abbrev pub drops_of : List LootRun → LootDb → List LootRunDrop
drops_of runs db = select_where (λ (d : LootRunDrop). is_among runs d.run_id) db.drops

abbrev pub costs_of : List LootRun → LootDb → List LootRunCost
costs_of runs db = select_where (λ (c : LootRunCost). is_among runs c.run_id) db.costs

-- The totals count each run once, and each drop and cost of the runs once, at these prices.
pub record IsTotal (runs : List LootRun) (db : LootDb) (prices : Prices) (t : LootTotals)
    : Type 0 where
  pub runs_counted : t.runs ≡ length runs
  pub seconds_added : t.seconds ≡ sum_by (λ (r : LootRun). r.seconds) runs
  pub value_added : t.value ≡ sum_by (drop_value prices) (drops_of runs db)
  pub cost_added : t.cost ≡ sum_by (cost_value prices) (costs_of runs db)

All-among :
    {A : Type 0} (f : A → String) (runs : List LootRun) (xs : List A)
    → All (λ x. is_among runs (f x) ≡ true) (select_where (λ x. is_among runs (f x)) xs)
unfolding select_where
All-among f runs [] = tt
All-among f runs (x ∷ xs) = elim (Bool-cases (is_among runs (f x))) [
  | inl e ↦ rw e (e, All-among f runs xs)
  | inr e ↦ rw e (All-among f runs xs)
]

report_of-IsTotal :
    (server : Option String) (start end week_key : String) (runs : List LootRun) (db : LootDb)
    (prices : Prices)
    → IsDistinct run_id runs
    → IsTotal runs db prices
        (report_of server start end week_key runs
          (drops_of runs db)
          (costs_of runs db)
          prices).totals
unfolding report_of
report_of-IsTotal server start end week_key runs db prices distinct =
    let valued =
      drop_amounts prices (drops_of runs db)
        (record { by_run = zero_amounts runs; missing = [] }) in
    let paid =
      cost_amounts prices (costs_of runs db)
        (record { by_run = zero_amounts runs; missing = valued.missing }) in
    let counted = count_runs-totals valued.by_run paid.by_run runs no_totals [] in
    let drops =
      amounts-drops prices runs distinct (drops_of runs db)
        (record { by_run = zero_amounts runs; missing = [] })
        (All-among (λ (d : LootRunDrop). d.run_id) runs db.drops) in
    let costs =
      amounts-costs prices runs distinct (costs_of runs db)
        (record { by_run = zero_amounts runs; missing = valued.missing })
        (All-among (λ (c : LootRunCost). c.run_id) runs db.costs) in
    record {
      runs_counted = omega (arith, counted.0);
      seconds_added = omega (arith, counted.1);
      value_added = omega (arith, counted.2, drops, amounts-zero runs runs);
      cost_added = omega (arith, counted.3, costs, amounts-zero runs runs);
    }

-- The items of some drops and costs that prices are asked for.
abbrev pub asked_items : List LootRun → LootDb → List String
asked_items runs db =
    unique_texts (drop_item_ids (drops_of runs db) ++ cost_item_ids (costs_of runs db)) []

-- The report is right about the runs, at the prices that are looked up for its server.
pub record IsReport (runs : List LootRun) (db : LootDb) (report : LootWeeklyReport) : Type 0 where
  pub prices : Prices
  pub priced : prices_for db report.server (asked_items runs db) ≡ ok prices
  pub totals : IsTotal runs db prices report.totals
  pub summary : IsSummary report

guarded :
    {A : Type 0} (b : Bool) (a : A)
    → b ≡ false
    → (r : A) × (◌≡◌ {A = Result A} (if b then err bad_request else ok a) (ok r))
guarded b a e = (a, rw e refl)

latest_prices :
    (db : LootDb) (server : String) (ids : List String)
    → is_empty (trim server) ≡ false
    → (prices : Prices) × (get_latest_prices_by_item_id db.economy server ids ≡ ok prices)
unfolding get_latest_prices_by_item_id
latest_prices db server ids e = guarded (is_empty (trim server)) _ e

-- A server that is trimmed and not empty has prices.
trimmed_prices :
    (db : LootDb) (server : Option String) (ids : List String)
    → (prices : Prices) × (prices_for db (trimmed server) ids ≡ ok prices)
unfolding trimmed
trimmed_prices db none ids = ([], refl)
trimmed_prices db (some s) ids = elim (Bool-cases (is_empty (trim s))) [
  | inl e ↦ ([], rw e refl)
  | inr e ↦
      let (prices, priced) = latest_prices db (trim s) ids (ap is_empty (trim-trim s) ∙ e) in
      (prices, rw e (rw e priced))
]

no_runs : (db : LootDb) → (drops_of [] db ≡ []) × (costs_of [] db ≡ [])
unfolding exists_where
no_runs db = (
  select-none _ db.drops (exists_never _ db.drops (λ d. refl)),
  select-none _ db.costs (exists_never _ db.costs (λ c. refl)),
)

pub report_for-IsReport :
    (db : LootDb) (raw_server : Option String) (start end week_key : String) (runs : List LootRun)
    (report : LootWeeklyReport)
    → IsDistinct run_id runs
    → report_for db (trimmed raw_server) start end week_key runs ≡ ok report
    → IsReport runs db report
unfolding report_for
report_for-IsReport db raw_server start end week_key [] report distinct e =
    let server = trimmed raw_server in
    let same : empty_report server start end ≡ report = cc in
    let (prices, priced) = trimmed_prices db raw_server (asked_items [] db) in
    subst (IsReport [] db) same (record {
      prices = prices;
      priced = priced;
      totals = record {
        runs_counted = refl;
        seconds_added = refl;
        value_added = rw ((no_runs db).0) refl;
        cost_added = rw ((no_runs db).1) refl;
      };
      summary = record { runs = refl; seconds = refl; value = refl; cost = refl; ordered = tt };
    })
report_for-IsReport db raw_server start end week_key (r ∷ rs) report distinct e =
    let server = effective_server (trimmed raw_server) (r ∷ rs) in
    elim (Result-cases (prices_for db server (asked_items (r ∷ rs) db))) [
      | inl (x, f) ↦
          let bad : ◌≡◌ {A = Result LootWeeklyReport} (err x) (ok report) = rw f at e in cc
      | inr (prices, f) ↦
          let made =
            report_of server start end week_key (r ∷ rs) (drops_of (r ∷ rs) db)
              (costs_of (r ∷ rs) db) prices in
          let given : ◌≡◌ {A = Result LootWeeklyReport} (ok made) (ok report) = rw f at e in
          let same : made ≡ report = cc in
          subst (IsReport (r ∷ rs) db) same (record {
            prices = prices;
            priced = f;
            totals = report_of-IsTotal server start end week_key (r ∷ rs) db prices distinct;
            summary =
                report_of-IsSummary server start end week_key (r ∷ rs) (drops_of (r ∷ rs) db)
                  (costs_of (r ∷ rs) db) prices;
          })
    ]
