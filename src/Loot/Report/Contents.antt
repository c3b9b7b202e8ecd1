-- ===== src/Loot/Report/Contents.antt =====
-- The contents of the weekly report of apps/desktop/src/main/storage/domains/loot.ts against its
-- totals.
use aion2_hub.Prelude.{
  ℕ, ◌+◌, ◌≡◌, refl, sym, ap, ◌∙◌, inl, inr, String, ◌===◌, true, false, Bool-cases, List, [], ◌∷◌,
  map, Option, arith,
}
use aion2_hub.Sql.{order_by}
use aion2_hub.Sql.Sums.{sum_by, sum_by-order_by, IsOrdered, order_by-IsOrdered}
use aion2_hub.Loot.{LootRun, LootRunDrop, LootRunCost}
use aion2_hub.Loot.Report.{
  Prices, LootTotals, no_totals, count_run, add_content, amount_of, count_runs, LootContent,
  content_of, net_before, LootWeeklyReport, report_of,
}

-- The sum of the totals of the contents.
record IsSplit (t : LootTotals) (per : List (String × LootTotals)) : Type 0 where
  runs : t.runs ≡ sum_by (λ (e : String × LootTotals). e.1.runs) per
  seconds : t.seconds ≡ sum_by (λ (e : String × LootTotals). e.1.seconds) per
  value : t.value ≡ sum_by (λ (e : String × LootTotals). e.1.value) per
  cost : t.cost ≡ sum_by (λ (e : String × LootTotals). e.1.cost) per

module _ (key : String) (seconds value cost : ℕ) where
  -- Each of the four grows by what the run adds.
  grows :
      (f : LootTotals → ℕ) (n : ℕ)
      → ((t : LootTotals) → f (count_run seconds value cost t) ≡ f t + n)
      → f no_totals ≡ 0
      → (per : List (String × LootTotals))
      → sum_by (λ (e : String × LootTotals). f e.1) (add_content key seconds value cost per)
        ≡ sum_by (λ (e : String × LootTotals). f e.1) per + n
  unfolding add_content
  grows f n step zero_at [] = omega (arith, step no_totals, zero_at)
  grows f n step zero_at ((k, t) ∷ per) = elim (Bool-cases (k === key)) [
    | inl e ↦ rw e (omega (arith, step t))
    | inr e ↦ rw e (omega (arith, grows f n step zero_at per))
  ]

  add_content-IsSplit :
      (t : LootTotals) (per : List (String × LootTotals))
      → IsSplit t per
      → IsSplit (count_run seconds value cost t) (add_content key seconds value cost per)
  add_content-IsSplit t per s = record {
    runs = omega (arith, s.runs, grows (λ (x : LootTotals). x.runs) 1 (λ x. omega arith) refl per);
    seconds =
        omega
          (arith, s.seconds, grows (λ (x : LootTotals). x.seconds) seconds (λ x. refl) refl per);
    value = omega (arith, s.value, grows (λ (x : LootTotals). x.value) value (λ x. refl) refl per);
    cost = omega (arith, s.cost, grows (λ (x : LootTotals). x.cost) cost (λ x. refl) refl per);
  }

count_runs-IsSplit :
    (values costs : List (String × ℕ)) (runs : List LootRun) (t : LootTotals)
    (per : List (String × LootTotals))
    → IsSplit t per
    → let counted = count_runs values costs runs (t, per) in IsSplit counted.0 counted.1
unfolding count_runs
count_runs-IsSplit values costs [] t per s = s
count_runs-IsSplit values costs (r ∷ rs) t per s =
    count_runs-IsSplit values costs rs _ _ (
      add_content-IsSplit r.content r.seconds (amount_of values r.id) (amount_of costs r.id) t per
        s)

sum_by-contents :
    (f : LootTotals → ℕ) (per : List (String × LootTotals))
    → sum_by (λ (c : LootContent). f c.totals) (order_by net_before (map content_of per))
      ≡ sum_by (λ (e : String × LootTotals). f e.1) per
sum_by-contents f per = sum_by-order_by (λ (c : LootContent). f c.totals) net_before _ ∙ mapped per
  where
    mapped :
        (per : List (String × LootTotals))
        → sum_by (λ (c : LootContent). f c.totals) (map content_of per)
          ≡ sum_by (λ (e : String × LootTotals). f e.1) per
    mapped [] = refl
    mapped (e ∷ per) = ap (λ n. f e.1 + n) (mapped per)

-- The contents add up to the totals, and the one with the greatest net comes first.
pub record IsSummary (report : LootWeeklyReport) : Type 0 where
  pub runs : sum_by (λ (c : LootContent). c.totals.runs) report.by_content ≡ report.totals.runs
  pub seconds :
      sum_by (λ (c : LootContent). c.totals.seconds) report.by_content ≡ report.totals.seconds
  pub value : sum_by (λ (c : LootContent). c.totals.value) report.by_content ≡ report.totals.value
  pub cost : sum_by (λ (c : LootContent). c.totals.cost) report.by_content ≡ report.totals.cost
  pub ordered : IsOrdered net_before report.by_content

net_before_total : (a b : LootContent) → net_before a b ≡ false → net_before b a ≡ true
net_before_total a b e = ground arith

net_before_trans :
    (a b c : LootContent) → net_before a b ≡ true → net_before b c ≡ true → net_before a c ≡ true
net_before_trans a b c e f = ground arith

pub report_of-IsSummary :
    (server : Option String) (start end week_key : String) (runs : List LootRun)
    (drops : List LootRunDrop) (costs : List LootRunCost) (prices : Prices)
    → IsSummary (report_of server start end week_key runs drops costs prices)
unfolding report_of
report_of-IsSummary server start end week_key runs drops costs prices =
    let base : IsSplit no_totals [] = record {
      runs = refl;
      seconds = refl;
      value = refl;
      cost = refl;
    } in
    let s = count_runs-IsSplit _ _ runs no_totals [] base in
    record {
      runs = sum_by-contents (λ (t : LootTotals). t.runs) _ ∙ sym s.runs;
      seconds = sum_by-contents (λ (t : LootTotals). t.seconds) _ ∙ sym s.seconds;
      value = sum_by-contents (λ (t : LootTotals). t.value) _ ∙ sym s.value;
      cost = sum_by-contents (λ (t : LootTotals). t.cost) _ ∙ sym s.cost;
      ordered = order_by-IsOrdered net_before net_before_total net_before_trans _;
    }
