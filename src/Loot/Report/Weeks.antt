-- ===== src/Loot/Report/Weeks.antt =====
-- Which runs the weekly report of apps/desktop/src/main/storage/domains/loot.ts is about.
use Prim.Native.String.{compare}
use text.Mathlib.Text.{is_le}
use aion2_hub.Prelude.{
  ℕ, ◌+◌, ◌≤◌, ◌<◌, ◌≡◌, refl, subst, ap, ◌∙◌, inl, inr, String, Bool, false, ◌&&◌, ◌===◌,
  Bool-cases, List, Option, none, some,
}
use aion2_hub.Text.{is_empty}
use aion2_hub.Dates.{day_of, weekday, at_hours}
use aion2_hub.Sql.{Result, ok, err, bad_request, select_where, order_by}
use aion2_hub.Sql.Laws.{select_congr}
use aion2_hub.Sql.Orders.{length-order_by, exists-order_by}
use aion2_hub.Sql.Sums.{IsDistinct, select-IsDistinct, order_by-IsDistinct, sum_by-order_by}
use aion2_hub.Period.{parse_hhmm}
use aion2_hub.Period.Daily.{parse_hhmm-IsTime}
use aion2_hub.Period.Weekly.{
  week_ms, week_day, week_day-le, clamp_reset_day-number_of, weekly_start_bounds,
}
use aion2_hub.Economy.{text_leb, trimmed}
use aion2_hub.Loot.{LootRun, LootRunDrop, LootRunCost, LootDb}
use aion2_hub.Loot.Report.{
  runs_of_week, ended_between, text_or_empty, LootWeeklyReport, resolved_now, PlannerReset,
  get_planner_reset_for_server, resolve_weekly_start_local, get_loot_weekly_report,
}
use aion2_hub.Loot.Report.Sums.{run_id}
use aion2_hub.Loot.Report.Priced.{IsWeekReport, IsReport-IsWeekReport}
use aion2_hub.Loot.Report.Totals.{drops_of, costs_of, IsReport, report_for-IsReport}

-- Did it end between the two?
abbrev pub ended_in : String → String → Option String → Bool
ended_in start end none = false
ended_in start end (some t) = is_le (compare start t) && is_le (compare t end)

-- The runs of a character that ended between the two.
abbrev pub runs_in : String → String → String → List LootRun → List LootRun
runs_in character_id start end runs =
    select_where (λ (r : LootRun). r.character_id === character_id && ended_in start end r.ended_at)
      runs

-- The last moment until `now` at the reset time of the reset day.
pub record IsWeekStart (reset : PlannerReset) (now start : ℕ) : Type 0 where
  pub at_time :
      start
      ≡ at_hours
          (day_of start)
          (parse_hhmm reset.daily_reset_hhmm).hour
          (parse_hhmm reset.daily_reset_hhmm).minute
  pub on_day : weekday (day_of start) ≡ week_day (some reset.weekly_reset_day)
  pub begun : start ≤ now
  pub not_over : now < start + week_ms

ended_between-in :
    (start end : String) (o : Option String) → ended_between start end o ≡ ended_in start end o
unfolding text_leb
ended_between-in start end none = refl
ended_between-in start end (some t) = refl

abbrev last_first : LootRun → LootRun → Bool
last_first a b = is_le (compare (text_or_empty b.ended_at) (text_or_empty a.ended_at))

runs_of_week-in :
    (db : LootDb) (character_id start end : String)
    → runs_of_week db character_id start end
      ≡ order_by last_first (runs_in character_id start end db.runs)
unfolding runs_of_week text_leb
runs_of_week-in db character_id start end = ap (order_by last_first) (
    select_congr _ _ db.runs (λ (r : LootRun).
      ap (λ b. r.character_id === character_id && b) (ended_between-in start end r.ended_at)))

module _ (before : LootRun → LootRun → Bool) (runs : List LootRun) (db : LootDb) where
  drops_of-order_by : drops_of (order_by before runs) db ≡ drops_of runs db
  drops_of-order_by =
      select_congr _ _ db.drops
        (λ (d : LootRunDrop). exists-order_by (λ (r : LootRun). r.id === d.run_id) before runs)

  costs_of-order_by : costs_of (order_by before runs) db ≡ costs_of runs db
  costs_of-order_by =
      select_congr _ _ db.costs
        (λ (c : LootRunCost). exists-order_by (λ (r : LootRun). r.id === c.run_id) before runs)

  -- The order of the runs does not matter.
  IsReport-order_by :
      {report : LootWeeklyReport}
      → IsReport (order_by before runs) db report
      → IsReport runs db report
  IsReport-order_by {report} h = record {
    prices = h.prices;
    priced = rw (← drops_of-order_by, ← costs_of-order_by) h.priced;
    totals = record {
      runs_counted = h.totals.runs_counted ∙ length-order_by before runs;
      seconds_added =
          h.totals.seconds_added ∙ sum_by-order_by (λ (r : LootRun). r.seconds) before runs;
      value_added = rw (← drops_of-order_by) h.totals.value_added;
      cost_added = rw (← costs_of-order_by) h.totals.cost_added;
    };
    summary = h.summary;
  }

resolve-IsWeekStart :
    (reset : PlannerReset) (now : ℕ)
    → week_ms ≤ now
    → IsWeekStart reset now
        (resolve_weekly_start_local now reset.daily_reset_hhmm reset.weekly_reset_day)
unfolding resolve_weekly_start_local
resolve-IsWeekStart reset now h =
    let r = parse_hhmm reset.daily_reset_hhmm in
    let day = some reset.weekly_reset_day in
    let (a, b, c, d) =
      weekly_start_bounds r (week_day day) now (parse_hhmm-IsTime reset.daily_reset_hhmm)
        (week_day-le day) h in
    rw (clamp_reset_day-number_of day) (record { at_time = a; on_day = b; begun = c; not_over = d })

runs_of_week-IsDistinct :
    (db : LootDb) (character_id start end : String)
    → IsDistinct run_id db.runs
    → IsDistinct run_id (runs_of_week db character_id start end)
unfolding runs_of_week
runs_of_week-IsDistinct db character_id start end d =
    order_by-IsDistinct run_id _ _ (select-IsDistinct run_id _ db.runs d)

-- The settings of the server that is asked for, or the default ones.
abbrev pub reset_of : LootDb → Option String → PlannerReset
reset_of db raw_server = get_planner_reset_for_server db.planner (trimmed raw_server)

-- Where the runs have different identities, a weekly report that is given is right, for a time a
-- week or more after the start of the count. The week starts at the last moment until that time
-- that is at the reset time and on the reset day of the settings. The totals count each run of the
-- character that ended from then until that time, add their seconds, and add each drop and each cost
-- of these runs exactly once: kinah as it is, items at the latest price of the report's server by
-- the time of record and then of creation, and nothing for an item without a price. The contents add up to the totals in runs,
-- seconds, value and cost, and none with a greater net comes after one with a smaller net.
pub get_loot_weekly_report-IsReport :
    (to_iso : ℕ → String) (parse : String → Option ℕ) (db : LootDb) (character_id : String)
    (raw_server now_iso : Option String) (clock : ℕ) (report : LootWeeklyReport)
    → IsDistinct run_id db.runs
    → week_ms ≤ resolved_now parse now_iso clock
    → get_loot_weekly_report to_iso parse db character_id raw_server now_iso clock ≡ ok report
    → let now = resolved_now parse now_iso clock in
      (start : ℕ) × IsWeekStart (reset_of db raw_server) now start
      × IsWeekReport (runs_in character_id (to_iso start) (to_iso now) db.runs) db report
unfolding get_loot_weekly_report
get_loot_weekly_report-IsReport to_iso parse db character_id raw_server now_iso clock report
      distinct late e =
    let now = resolved_now parse now_iso clock in
    let reset = reset_of db raw_server in
    let start = resolve_weekly_start_local now reset.daily_reset_hhmm reset.weekly_reset_day in
    elim (Bool-cases (is_empty character_id)) [
      | inl f ↦
          let bad : ◌≡◌ {A = Result LootWeeklyReport} (err bad_request) (ok report) = rw f at e in
          cc
      | inr f ↦ (
        start,
        resolve-IsWeekStart reset now late,
        IsReport-IsWeekReport (
            IsReport-order_by last_first (runs_in character_id (to_iso start) (to_iso now) db.runs)
              db
              (subst (λ runs. IsReport runs db report)
                (runs_of_week-in db character_id (to_iso start) (to_iso now))
                (report_for-IsReport db raw_server _ _ _ _ report
                  (runs_of_week-IsDistinct db character_id _ _ distinct) (rw f at e)))),
      )
    ]
