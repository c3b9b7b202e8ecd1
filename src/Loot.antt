-- ===== src/Loot.antt =====
-- The loot logbook of the desktop database: apps/desktop/src/main/storage/domains/loot.ts, with
-- the rows of schema.ts. A time is the text that the code stores.
pub mod Runs
pub mod Created
pub mod Stored
pub mod Report
use aion2_hub.Prelude.{
  ℕ, List, [], ◌∷◌, map, String, Bool, true, false, ◌===◌, length, Option, none, some,
  if◌then◌else◌,
}
use aion2_hub.Prelude.Int.{ℤ, pos}
use aion2_hub.Text.{◌<+>◌, is_empty}
use aion2_hub.Sql.{
  Result, ok, err, bad_request, select_where, delete_where, update_where, exists_where, one_where,
  order_by, limit,
}
use aion2_hub.Planner.{Database, PlannerSettingsRow, AppCharacter}
use aion2_hub.Planner.Characters.{delete_character}
use aion2_hub.Economy.{EconomyDb, EconomyItem, text_leb, row_limit, delete_economy_item}
use aion2_hub.Economy.Prices.{has_item}

pub data LootRunCostKind : Type 0 where
  kinah item : LootRunCostKind

pub record LootRun : Type 0 where
  pub id : String
  pub character_id : String
  pub server : Option String
  pub content : String
  pub role : Option String
  pub power_bracket : Option String
  pub started_at : Option String
  pub ended_at : Option String
  pub seconds : ℕ
  pub created_at : String
  pub updated_at : String

pub record LootRunDrop : Type 0 where
  pub id : String
  pub run_id : String
  pub item_id : Option String
  pub item_name : String
  pub qty : ℕ
  pub note : Option String
  pub created_at : String
  pub updated_at : String

pub record LootRunCost : Type 0 where
  pub id : String
  pub run_id : String
  pub kind : LootRunCostKind
  pub item_id : Option String
  pub item_name : Option String
  pub qty : ℕ
  pub kinah : ℕ
  pub note : Option String
  pub created_at : String
  pub updated_at : String

-- The logbook with the tables that it refers to.
pub record LootDb : Type 0 where
  pub planner : Database
  pub economy : EconomyDb
  pub runs : List LootRun
  pub drops : List LootRunDrop
  pub costs : List LootRunCost

abbrev pub drop_of : String → LootRunDrop → Bool
drop_of run_id d = d.run_id === run_id

abbrev pub cost_of : String → LootRunCost → Bool
cost_of run_id c = c.run_id === run_id

pub record LootRunListItem : Type 0 where
  pub run : LootRun
  pub drop_count : ℕ
  pub cost_count : ℕ

-- `COALESCE(r.ended_at, r.created_at)`.
abbrev pub run_time : LootRun → String
run_time r = elim r.ended_at [ none ↦ r.created_at | some t ↦ t ]

abbrev pub list_item : LootDb → LootRun → LootRunListItem
list_item db r = record {
  run = r;
  drop_count = length (select_where (drop_of r.id) db.drops);
  cost_count = length (select_where (cost_of r.id) db.costs);
}

unfoldable pub list_loot_runs : LootDb → String → Option ℤ → Result (List LootRunListItem)
unfolding row_limit text_leb
list_loot_runs db character_id limit_input =
    let rows = select_where (λ (r : LootRun). r.character_id === character_id) db.runs in
    let ordered = order_by (λ (a b : LootRun). text_leb (run_time b) (run_time a)) rows in
    if is_empty character_id
    then err bad_request
    else ok (map (list_item db) (limit (row_limit limit_input) ordered))

pub record LootRunDetails : Type 0 where
  pub run : LootRun
  pub drops : List LootRunDrop
  pub costs : List LootRunCost

-- `ORDER BY created_at ASC`, for the drops and for the costs of the run.
abbrev pub details_of : LootDb → LootRun → LootRunDetails
details_of db r = record {
  run = r;
  drops =
      order_by (λ (a b : LootRunDrop). text_leb a.created_at b.created_at)
        (select_where (drop_of r.id) db.drops);
  costs =
      order_by (λ (a b : LootRunCost). text_leb a.created_at b.created_at)
        (select_where (cost_of r.id) db.costs);
}

unfoldable pub get_loot_run : LootDb → String → Option LootRunDetails
get_loot_run db run_id = elim (one_where (λ (r : LootRun). r.id === run_id) db.runs) [
  | none ↦ none
  | some r ↦ some (details_of db r)
]

abbrev pub run_of_character : String → String → LootRun → Bool
run_of_character id character_id r = if r.id === id then r.character_id === character_id else false

-- The drops and the costs of the run stay.
unfoldable pub delete_loot_run : LootDb → String → String → Result LootDb
delete_loot_run db id character_id =
    if is_empty id
    then err bad_request
    else if is_empty character_id
    then err bad_request
    else ok (record db { runs = delete_where (run_of_character id character_id) db.runs })
