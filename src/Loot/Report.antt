-- ===== src/Loot/Report.antt =====
-- `getLootWeeklyReport` of apps/desktop/src/main/storage/domains/loot.ts.
pub mod Sums
pub mod Totals
pub mod Contents
pub mod Latest
pub mod Asked
pub mod Priced
pub mod Weeks
use aion2_hub.Prelude.{
  ℕ, zero, suc, ◌+◌, ◌-◌, ◌*◌, ◌%◌, List, [], ◌∷◌, ◌++◌, map, String, Bool, true, false, ◌&&◌,
  ◌===◌, ◌==◌, ltb, leb, Option, none, some, if◌then◌else◌,
}
use aion2_hub.Prelude.Int.{ℤ, pos, sub_ℕ, ◌≤ℤ◌, ltb_ℤ, ◌*ℤ◌}
use aion2_hub.Prelude.Number.{Number, finite}
use aion2_hub.Text.{◌<+>◌, trim, is_empty}
use aion2_hub.Dates.{get_day, set_hours, days_back, format_local_date_key}
use aion2_hub.Period.{parse_hhmm, clamp_reset_day, weekly_start}
use aion2_hub.Sql.{
  Result, ok, err, ◌>>=◌, bad_request, select_where, exists_where, one_where, order_by,
}
use aion2_hub.Planner.{Database, PlannerSettingsRow}
use aion2_hub.Planner.Settings.{planner_settings_id_for_server}
use aion2_hub.Economy.{text_leb, trimmed}
use aion2_hub.Economy.Watches.{get_latest_prices_by_item_id}
use aion2_hub.Loot.{LootRunCostKind, kinah, item, LootRun, LootRunDrop, LootRunCost, LootDb}

-- The reset of a server, or the default one, from the rows that are there.
pub record PlannerReset : Type 0 where
  pub daily_reset_hhmm : String
  pub weekly_reset_day : ℤ

abbrev pub default_reset : Option PlannerSettingsRow → PlannerReset
default_reset none = record { daily_reset_hhmm = "09:00"; weekly_reset_day = pos 1 }
default_reset (some r) = record {
  daily_reset_hhmm = if is_empty r.daily_reset_hhmm then "09:00" else r.daily_reset_hhmm;
  weekly_reset_day = r.weekly_reset_day;
}

abbrev pub reset_or : PlannerReset → Option PlannerSettingsRow → PlannerReset
reset_or other none = other
reset_or other (some r) =
    if is_empty r.daily_reset_hhmm
    then other
    else record { daily_reset_hhmm = r.daily_reset_hhmm; weekly_reset_day = r.weekly_reset_day }

abbrev pub settings_by_id : Database → String → Option PlannerSettingsRow
settings_by_id db id = one_where (λ (r : PlannerSettingsRow). r.id === id) db.planner_settings

unfoldable pub get_planner_reset_for_server : Database → Option String → PlannerReset
unfolding planner_settings_id_for_server
get_planner_reset_for_server db none = default_reset (settings_by_id db "default")
get_planner_reset_for_server db (some server) =
    let other = default_reset (settings_by_id db "default") in
    if is_empty server
    then other
    else reset_or other (settings_by_id db (planner_settings_id_for_server server))

-- The code of `weeklyPeriodKey` (planner/period.ts) once more. The stored day is taken to be whole.
unfoldable pub resolve_weekly_start_local : ℕ → String → ℤ → ℕ
unfolding parse_hhmm clamp_reset_day weekly_start
resolve_weekly_start_local now daily_reset_hhmm weekly_reset_day =
    weekly_start now (parse_hhmm daily_reset_hhmm) (clamp_reset_day (finite weekly_reset_day 0))

-- The runs of the character that ended in the week, the last first. A run without an end is in no
-- week.
abbrev pub ended_between : String → String → Option String → Bool
ended_between start end none = false
ended_between start end (some t) = text_leb start t && text_leb t end

abbrev pub text_or_empty : Option String → String
text_or_empty none = String.[]
text_or_empty (some s) = s

unfoldable pub runs_of_week : LootDb → String → String → String → List LootRun
unfolding text_leb
runs_of_week db character_id start end =
    order_by (λ (a b : LootRun). text_leb (text_or_empty b.ended_at) (text_or_empty a.ended_at))
      (select_where
        (λ (r : LootRun). r.character_id === character_id && ended_between start end r.ended_at)
        db.runs)

abbrev pub is_among : List LootRun → String → Bool
is_among runs id = exists_where (λ (r : LootRun). r.id === id) runs

-- `runs.find((r) => r.server)?.server`: a text that is not empty.
abbrev pub has_text : Option String → Bool
has_text none = false
has_text (some s) = if is_empty s then false else true

unfoldable pub first_server : List LootRun → Option String
first_server [] = none
first_server (r ∷ rs) = if has_text r.server then r.server else first_server rs

abbrev pub effective_server : Option String → List LootRun → Option String
effective_server none runs = first_server runs
effective_server (some s) runs = some s

-- An identity that is there and not empty.
abbrev pub id_list : Option String → List String
id_list none = []
id_list (some id) = if is_empty id then [] else id ∷ []

abbrev pub cost_item_id : LootRunCost → List String
cost_item_id c = elim c.kind [
  | LootRunCostKind.kinah ↦ []
  | LootRunCostKind.item ↦ id_list c.item_id
]

unfoldable pub drop_item_ids : List LootRunDrop → List String
drop_item_ids [] = []
drop_item_ids (d ∷ ds) = id_list d.item_id ++ drop_item_ids ds

unfoldable pub cost_item_ids : List LootRunCost → List String
cost_item_ids [] = []
cost_item_ids (c ∷ cs) = cost_item_id c ++ cost_item_ids cs

-- A set of texts in the order of insertion.
unfoldable pub add_text : String → List String → List String
add_text s out = if exists_where (λ t. t === s) out then out else out ++ s ∷ []

-- `Array.from(new Set(ids))`.
unfoldable pub unique_texts : List String → List String → List String
unfolding add_text
unique_texts [] out = out
unique_texts (s ∷ rest) out = unique_texts rest (add_text s out)

abbrev pub prices_for : LootDb → Option String → List String → Result (List (String × ℕ))
prices_for db none ids = ok []
prices_for db (some server) ids =
    if is_empty server then ok [] else get_latest_prices_by_item_id db.economy server ids

abbrev pub Prices : Type 0
Prices = List (String × ℕ)

abbrev pub price_pair : String → String × ℕ → Bool
price_pair id e = e.0 === id

-- `priceById[id]`, where `undefined` is `none`.
unfoldable pub price_of : Prices → String → Option ℕ
price_of prices id = elim (one_where (price_pair id) prices) [ none ↦ none | some e ↦ some e.1 ]

-- `by[id] = (by[id] ?? 0) + n`.
unfoldable pub add_to : String → ℕ → List (String × ℕ) → List (String × ℕ)
add_to id n [] = (id, n) ∷ []
add_to id n ((k, v) ∷ rest) = if k === id then (k, v + n) ∷ rest else (k, v) ∷ add_to id n rest

unfoldable pub amount_of : List (String × ℕ) → String → ℕ
amount_of [] id = 0
amount_of ((k, v) ∷ rest) id = if k === id then v else amount_of rest id

-- What the loops over drops and costs change: an amount for each run, and the items without a
-- price.
pub record Amounts : Type 0 where
  pub by_run : List (String × ℕ)
  pub missing : List String

abbrev pub priced : Option ℕ → String → String → ℕ → Amounts → Amounts
priced none run_id id qty a = record a { missing = add_text id a.missing }
priced (some price) run_id id qty a = record a { by_run = add_to run_id (qty * price) a.by_run }

abbrev pub priced_item : Prices → Option String → String → ℕ → Amounts → Amounts
priced_item prices none run_id qty a = a
priced_item prices (some id) run_id qty a =
    if is_empty id then a else priced (price_of prices id) run_id id qty a

unfoldable pub drop_amounts : Prices → List LootRunDrop → Amounts → Amounts
unfolding price_of add_to add_text
drop_amounts prices [] a = a
drop_amounts prices (d ∷ ds) a =
    drop_amounts prices ds (priced_item prices d.item_id d.run_id d.qty a)

abbrev pub cost_amount : Prices → LootRunCost → Amounts → Amounts
cost_amount prices c a = elim c.kind [
  | LootRunCostKind.kinah ↦ record a { by_run = add_to c.run_id c.kinah a.by_run }
  | LootRunCostKind.item ↦ priced_item prices c.item_id c.run_id c.qty a
]

unfoldable pub cost_amounts : Prices → List LootRunCost → Amounts → Amounts
unfolding price_of add_to add_text
cost_amounts prices [] a = a
cost_amounts prices (c ∷ cs) a = cost_amounts prices cs (cost_amount prices c a)

pub record LootTotals : Type 0 where
  pub runs : ℕ
  pub seconds : ℕ
  pub value : ℕ
  pub cost : ℕ

abbrev pub no_totals : LootTotals
no_totals = record { runs = 0; seconds = 0; value = 0; cost = 0 }

abbrev pub count_run : ℕ → ℕ → ℕ → LootTotals → LootTotals
count_run seconds value cost t = record {
  runs = suc t.runs;
  seconds = t.seconds + seconds;
  value = t.value + value;
  cost = t.cost + cost;
}

-- `perContent.get(key) ?? …` and `perContent.set(key, prev)`.
unfoldable pub add_content :
    String → ℕ → ℕ → ℕ → List (String × LootTotals) → List (String × LootTotals)
add_content key seconds value cost [] = (key, count_run seconds value cost no_totals) ∷ []
add_content key seconds value cost ((k, t) ∷ rest) =
    if k === key
    then (k, count_run seconds value cost t) ∷ rest
    else (k, t) ∷ add_content key seconds value cost rest

unfoldable pub count_runs :
    List (String × ℕ)
    → List (String × ℕ)
    → List LootRun
    → LootTotals × List (String × LootTotals)
    → LootTotals × List (String × LootTotals)
unfolding amount_of add_content
count_runs values costs [] acc = acc
count_runs values costs (r ∷ rs) (t, per) =
    let value = amount_of values r.id in
    let cost = amount_of costs r.id in
    count_runs values costs rs
      (count_run r.seconds value cost t, add_content r.content r.seconds value cost per)

-- `n / (seconds / 3600)`, and 0 where there are no seconds, as an exact quotient.
unfoldable pub per_hour : ℤ → ℕ → Number
unfolding ◌*ℤ◌
per_hour n zero = finite (pos 0) 0
per_hour n (suc s) = finite (n *ℤ pos 3600) s

abbrev pub net_of : LootTotals → ℤ
net_of t = sub_ℕ t.value t.cost

pub record LootContent : Type 0 where
  pub content : String
  pub totals : LootTotals
  pub net : ℤ
  pub value_per_hour : Number
  pub net_per_hour : Number

abbrev pub content_of : String × LootTotals → LootContent
content_of e = record {
  content = e.0;
  totals = e.1;
  net = net_of e.1;
  value_per_hour = per_hour (pos e.1.value) e.1.seconds;
  net_per_hour = per_hour (net_of e.1) e.1.seconds;
}

-- `sort((a, b) => b.net - a.net)`.
abbrev pub net_before : LootContent → LootContent → Bool
net_before a b = if ltb_ℤ a.net b.net then false else true

pub record LootWeeklyReport : Type 0 where
  pub server : Option String
  pub week_start_iso : String
  pub week_end_iso : String
  pub totals : LootTotals
  pub net : ℤ
  pub value_per_hour : Number
  pub net_per_hour : Number
  pub missing_price_items : List String
  pub by_content : List LootContent
  -- `debug.periodKey`, which the report of a week without runs does not have.
  pub period_key : Option String

abbrev pub empty_report : Option String → String → String → LootWeeklyReport
empty_report server start end = record {
  server = server;
  week_start_iso = start;
  week_end_iso = end;
  totals = no_totals;
  net = pos 0;
  value_per_hour = finite (pos 0) 0;
  net_per_hour = finite (pos 0) 0;
  missing_price_items = [];
  by_content = [];
  period_key = none;
}

-- `byRunValue[r.id] = 0` for each run.
abbrev pub zero_amounts : List LootRun → List (String × ℕ)
zero_amounts [] = []
zero_amounts (r ∷ rs) = (r.id, 0) ∷ zero_amounts rs

-- What the loops make of the rows and the prices.
unfoldable pub report_of :
    Option String
    → String
    → String
    → String
    → List LootRun
    → List LootRunDrop
    → List LootRunCost
    → Prices
    → LootWeeklyReport
unfolding drop_amounts cost_amounts count_runs per_hour
report_of server start end week_key runs drops costs prices =
    let valued = drop_amounts prices drops (record { by_run = zero_amounts runs; missing = [] }) in
    let paid =
      cost_amounts prices costs (record { by_run = zero_amounts runs; missing = valued.missing }) in
    let counted = count_runs valued.by_run paid.by_run runs (no_totals, []) in
    record {
      server = server;
      week_start_iso = start;
      week_end_iso = end;
      totals = counted.0;
      net = net_of counted.0;
      value_per_hour = per_hour (pos counted.0.value) counted.0.seconds;
      net_per_hour = per_hour (net_of counted.0) counted.0.seconds;
      missing_price_items = paid.missing;
      by_content = order_by net_before (map content_of counted.1);
      period_key = some ("W:" <+> week_key);
    }

unfoldable pub report_for :
    LootDb → Option String → String → String → String → List LootRun → Result LootWeeklyReport
unfolding report_of drop_item_ids cost_item_ids unique_texts first_server
report_for db server start end week_key [] = ok (empty_report server start end)
report_for db server start end week_key (r ∷ rs) =
    let runs = r ∷ rs in
    let drops = select_where (λ (d : LootRunDrop). is_among runs d.run_id) db.drops in
    let costs = select_where (λ (c : LootRunCost). is_among runs c.run_id) db.costs in
    let price_server = effective_server server runs in
    prices_for db price_server (unique_texts (drop_item_ids drops ++ cost_item_ids costs) [])
    >>= λ prices. ok (report_of price_server start end week_key runs drops costs prices)

-- `to_iso` stands for `toISOString`, `parse` for the parser of `Date`, `clock` for the clock.
abbrev pub resolved_now : (String → Option ℕ) → Option String → ℕ → ℕ
resolved_now parse none clock = clock
resolved_now parse (some iso) clock = elim (parse iso) [ none ↦ clock | some t ↦ t ]

unfoldable pub get_loot_weekly_report :
    (ℕ → String)
    → (String → Option ℕ)
    → LootDb
    → String
    → Option String
    → Option String
    → ℕ
    → Result LootWeeklyReport
unfolding get_planner_reset_for_server resolve_weekly_start_local runs_of_week report_for trimmed
get_loot_weekly_report to_iso parse db character_id raw_server now_iso clock =
    let now = resolved_now parse now_iso clock in
    let server = trimmed raw_server in
    let reset = get_planner_reset_for_server db.planner server in
    let start = resolve_weekly_start_local now reset.daily_reset_hhmm reset.weekly_reset_day in
    if is_empty character_id
    then err bad_request
    else report_for db server (to_iso start) (to_iso now) (format_local_date_key start)
        (runs_of_week db character_id (to_iso start) (to_iso now))
