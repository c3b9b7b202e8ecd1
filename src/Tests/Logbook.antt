-- ===== src/Tests/Logbook.antt =====
-- The loot logbook on concrete input.
use aion2_hub.Prelude.{
  arith, ℕ, ◌==◌, if◌then◌else◌, ◌≡◌, refl, String, ◌===◌, false, [], ◌∷◌, Option, none, some,
}
use aion2_hub.Prelude.Int.{pos}
use aion2_hub.Prelude.Number.{whole, finite, not_finite}
use aion2_hub.Sql.{ok, exists_where, one_where, select_where, delete_where, order_by, insert_row}
use aion2_hub.Text.{◌<+>◌, trim, is_empty, codes, show, pad2}
use aion2_hub.Dates.{civil, next_civil, format_civil, format_local_date_key}
use aion2_hub.Economy.Watches.{get_latest_prices_by_item_id}
use aion2_hub.Planner.{AppCharacter}
use aion2_hub.Planner.Keys.History.{empty_database}
use aion2_hub.Economy.{EconomyItem, EconomyPrice, upsert_economy_item_by_name}
use aion2_hub.Loot.{LootRunCostKind, LootRun, LootRunDrop, LootRunCost, LootDb}
use aion2_hub.Loot.Runs.{RunInput, EntryIds, RunIds, create_loot_run}
use aion2_hub.Loot.Stored.{IsWhole, create_loot_run-IsWhole}
use aion2_hub.Loot.Report.{LootTotals, LootWeeklyReport, get_loot_weekly_report}
use aion2_hub.Loot.Report.Priced.{IsWeekReport}
use aion2_hub.Loot.Report.Weeks.{runs_in, IsWeekStart, reset_of, get_loot_weekly_report-IsReport}

abbrev pub hero : AppCharacter
hero = record {
  id = "c1";
  name = "Kai";
  server = some "S";
  class = none;
  created_at = 0;
  updated_at = 0;
}

abbrev pub empty_logbook : LootDb
empty_logbook = record {
  planner = empty_database;
  economy = record { items = []; prices = []; watches = []; alerts = [] };
  runs = [];
  drops = [];
  costs = [];
}

abbrev one_hero : LootDb
one_hero = record empty_logbook { planner = record empty_database { characters = hero ∷ [] } }

abbrev entry_ids : String → ℕ → EntryIds
entry_ids row n = record { item = "i1"; row = row; now = "t" }

abbrev ids : RunIds
ids = record { run = "r1"; drop = entry_ids "d1"; cost = entry_ids "k1" }

abbrev cave : RunInput
cave = record {
  character_id = "c1";
  content = " Cave ";
  role = none;
  power_bracket = none;
  started_at = none;
  ended_at = some "5";
  seconds = some (whole 1800);
  drops = record { item_name = "Ore "; qty = whole 3; note = none } ∷ [];
  costs =
      record {
        kind = some LootRunCostKind.kinah;
        kinah = whole 40;
        item_name = none;
        qty = not_finite;
        note = none;
      }
      ∷ [];
}

abbrev no_date : String → Option ℕ
no_date s = none

create_loot_run-IsWhole_example :
    IsWhole no_date ids "t" cave one_hero (create_loot_run no_date ids "t" cave one_hero)
create_loot_run-IsWhole_example =
    create_loot_run-IsWhole no_date ids "t" cave one_hero nothing nothing_paid
  where
    nothing : exists_where (λ (d : LootRunDrop). d.run_id === "r1") one_hero.drops ≡ false
    nothing = unfold exists_where in refl

    nothing_paid : exists_where (λ (c : LootRunCost). c.run_id === "r1") one_hero.costs ≡ false
    nothing_paid = unfold exists_where in refl

abbrev ore : EconomyItem
ore = record {
  id = "i1";
  name = "Ore";
  category = none;
  note = none;
  created_at = "t";
  updated_at = "t";
}

abbrev ore_price : EconomyPrice
ore_price = record {
  id = "p1";
  server = "S";
  item_id = "i1";
  price = 100;
  recorded_at = "t";
  created_at = "t";
  updated_at = "t";
}

abbrev cave_run : LootRun
cave_run = record {
  id = "r1";
  character_id = "c1";
  server = some "S";
  content = "Cave";
  role = none;
  power_bracket = none;
  started_at = none;
  ended_at = some "5";
  seconds = 1800;
  created_at = "t";
  updated_at = "t";
}

abbrev ore_drop : LootRunDrop
ore_drop = record {
  id = "d1";
  run_id = "r1";
  item_id = some "i1";
  item_name = "Ore";
  qty = 3;
  note = none;
  created_at = "t";
  updated_at = "t";
}

abbrev kinah_paid : LootRunCost
kinah_paid = record {
  id = "k1";
  run_id = "r1";
  kind = LootRunCostKind.kinah;
  item_id = none;
  item_name = none;
  qty = 0;
  kinah = 40;
  note = none;
  created_at = "t";
  updated_at = "t";
}

abbrev cave_stored : LootDb
cave_stored = record one_hero {
  economy = record { items = ore ∷ []; prices = []; watches = []; alerts = [] };
  runs = cave_run ∷ [];
  drops = ore_drop ∷ [];
  costs = kinah_paid ∷ [];
}

cave_run_stored : create_loot_run no_date ids "t" cave one_hero ≡ (ok tt, cave_stored)
unfolding create_loot_run is_empty trim one_where ◌===◌ insert_row exists_where
    upsert_economy_item_by_name
cave_run_stored = refl

abbrev cave_priced : LootDb
cave_priced = record cave_stored {
  economy = record { items = ore ∷ []; prices = ore_price ∷ []; watches = []; alerts = [] };
}

abbrev noon : ℕ
noon = 6048000000

abbrev iso : ℕ → String
iso n = if n == noon then "9" else "1"

abbrev cave_totals : LootTotals
cave_totals = record { runs = 1; seconds = 1800; value = 300; cost = 40 }

abbrev weekly : LootWeeklyReport
weekly = record {
  server = some "S";
  week_start_iso = "1";
  week_end_iso = "9";
  totals = cave_totals;
  net = pos 260;
  value_per_hour = finite (pos 1080000) 1799;
  net_per_hour = finite (pos 936000) 1799;
  missing_price_items = [];
  by_content =
      record {
        content = "Cave";
        totals = cave_totals;
        net = pos 260;
        value_per_hour = finite (pos 1080000) 1799;
        net_per_hour = finite (pos 936000) 1799;
      }
      ∷ [];
  period_key = some "W:1970-03-09";
}

weekly_run : get_loot_weekly_report iso no_date cave_priced "c1" none none noon ≡ ok weekly
unfolding get_loot_weekly_report is_empty order_by select_where ◌===◌ one_where codes trim
    get_latest_prices_by_item_id exists_where ◌<+>◌ delete_where format_local_date_key format_civil
    show civil next_civil pad2
weekly_run = refl

get_loot_weekly_report-IsReport_example :
    (start : ℕ) × IsWeekStart (reset_of cave_priced none) noon start
    × IsWeekReport (runs_in "c1" (iso start) (iso noon) cave_priced.runs) cave_priced weekly
get_loot_weekly_report-IsReport_example =
    get_loot_weekly_report-IsReport iso no_date cave_priced "c1" none none noon weekly
      (unfold exists_where in refl, tt) (omega arith) weekly_run
