-- ===== src/Loot/Runs.antt =====
-- `createLootRun` of apps/desktop/src/main/storage/domains/loot.ts, with its transaction. A
-- statement that throws leaves what the earlier ones have written, until ROLLBACK.
use aion2_hub.Prelude.{
  ℕ, suc, ◌-◌, ◌/◌, List, [], ◌∷◌, String, ◌===◌, ◌==◌, Option, none, some, if◌then◌else◌,
}
use aion2_hub.Prelude.Number.{Number, finite, not_finite, floor_at_zero}
use aion2_hub.Text.{trim, is_empty}
use aion2_hub.Sql.{Result, ok, err, bad_request, no_character, one_where, insert_row}
use aion2_hub.Planner.{AppCharacter}
use aion2_hub.Economy.{EconomyDb, EconomyItem, trimmed, upsert_economy_item_by_name}
use aion2_hub.Economy.Prices.{floor_or_zero, text_or}
use aion2_hub.Loot.{LootRunCostKind, LootRun, LootRunDrop, LootRunCost, LootDb}

pub record DropInput : Type 0 where
  pub item_name : String
  pub qty : Number
  pub note : Option String

-- A `kind` that is none of the two is `none`, a number that is missing is not finite.
pub record CostInput : Type 0 where
  pub kind : Option LootRunCostKind
  pub kinah : Number
  pub item_name : Option String
  pub qty : Number
  pub note : Option String

pub record RunInput : Type 0 where
  pub character_id : String
  pub content : String
  pub role : Option String
  pub power_bracket : Option String
  pub started_at : Option String
  pub ended_at : Option String
  pub seconds : Option Number
  pub drops : List DropInput
  pub costs : List CostInput

-- The new identities that an entry takes with the time at which its item is put in, and the
-- identities of a call.
pub record EntryIds : Type 0 where
  pub item : String
  pub row : String
  pub now : String

pub record RunIds : Type 0 where
  pub run : String
  pub drop : ℕ → EntryIds
  pub cost : ℕ → EntryIds

-- What a statement leaves, and whether it throws.
abbrev pub Outcome : Type 0
Outcome = Result (Unit {0}) × LootDb

infixl 5 ◌>>◌
abbrev pub then_do : Outcome → (LootDb → Outcome) → Outcome
then_do (ok u, db) k = k db
then_do (err e, db) k = (err e, db)

abbrev pub ◌>>◌ : (LootDb → Outcome) → (LootDb → Outcome) → LootDb → Outcome
◌>>◌ m k db = then_do (m db) k

abbrev pub done : LootDb → Outcome
done db = (ok tt, db)

-- BEGIN, the statements, and COMMIT or ROLLBACK, which is taken not to fail.
abbrev pub commit_or_rollback : LootDb → Outcome → Outcome
commit_or_rollback before (ok u, db) = (ok u, db)
commit_or_rollback before (err e, db) = (err e, before)

unfoldable pub transaction : (LootDb → Outcome) → LootDb → Outcome
transaction m db = commit_or_rollback db (m db)

abbrev pub with_runs : LootDb → Result (List LootRun) → Outcome
with_runs db (ok rows) = (ok tt, record db { runs = rows })
with_runs db (err e) = (err e, db)

unfoldable pub insert_run : LootRun → LootDb → Outcome
insert_run row db = with_runs db (insert_row (λ (r : LootRun). r.id === row.id) row db.runs)

abbrev pub with_drops : LootDb → Result (List LootRunDrop) → Outcome
with_drops db (ok rows) = (ok tt, record db { drops = rows })
with_drops db (err e) = (err e, db)

unfoldable pub insert_drop : LootRunDrop → LootDb → Outcome
insert_drop row db = with_drops db (insert_row (λ (d : LootRunDrop). d.id === row.id) row db.drops)

abbrev pub with_costs : LootDb → Result (List LootRunCost) → Outcome
with_costs db (ok rows) = (ok tt, record db { costs = rows })
with_costs db (err e) = (err e, db)

unfoldable pub insert_cost : LootRunCost → LootDb → Outcome
insert_cost row db = with_costs db (insert_row (λ (c : LootRunCost). c.id === row.id) row db.costs)

-- `upsertEconomyItemByName(db, { name })`, and what follows with the item.
abbrev pub after_upsert :
    LootDb → Result (EconomyItem × EconomyDb) → (EconomyItem → LootDb → Outcome) → Outcome
after_upsert db (ok (i, economy)) k = k i (record db { economy = economy })
after_upsert db (err e) k = (err e, db)

unfoldable pub with_item :
    String → String → String → (EconomyItem → LootDb → Outcome) → LootDb → Outcome
with_item name id now k db =
    after_upsert db (upsert_economy_item_by_name db.economy name none none id now) k

abbrev pub new_drop : EntryIds → String → EconomyItem → ℕ → Option String → String → LootRunDrop
new_drop ids run i qty note now = record {
  id = ids.row;
  run_id = run;
  item_id = some i.id;
  item_name = i.name;
  qty = qty;
  note = note;
  created_at = now;
  updated_at = now;
}

unfoldable pub add_drop : EntryIds → String → String → DropInput → LootDb → Outcome
unfolding with_item insert_drop floor_or_zero trimmed
add_drop ids run now d db =
    let name = trim d.item_name in
    let qty = floor_or_zero d.qty in
    if is_empty name
    then done db
    else if qty == 0
    then done db
    else with_item name ids.item ids.now
        (λ i. insert_drop (new_drop ids run i qty (trimmed d.note) now)) db

-- `for (const d of drops)`, from the `n`th on.
unfoldable pub add_drops : (ℕ → EntryIds) → String → String → ℕ → List DropInput → LootDb → Outcome
unfolding add_drop
add_drops fresh run now n [] db = done db
add_drops fresh run now n (d ∷ ds) db =
    then_do (add_drop (fresh n) run now d db) (add_drops fresh run now (suc n) ds)

abbrev pub kinah_cost : EntryIds → String → ℕ → Option String → String → LootRunCost
kinah_cost ids run amount note now = record {
  id = ids.row;
  run_id = run;
  kind = LootRunCostKind.kinah;
  item_id = none;
  item_name = none;
  qty = 0;
  kinah = amount;
  note = note;
  created_at = now;
  updated_at = now;
}

abbrev pub item_cost : EntryIds → String → EconomyItem → ℕ → Option String → String → LootRunCost
item_cost ids run i qty note now = record {
  id = ids.row;
  run_id = run;
  kind = LootRunCostKind.item;
  item_id = some i.id;
  item_name = some i.name;
  qty = qty;
  kinah = 0;
  note = note;
  created_at = now;
  updated_at = now;
}

abbrev pub trimmed_or_empty : Option String → String
trimmed_or_empty none = String.[]
trimmed_or_empty (some s) = trim s

unfoldable pub add_cost_of :
    Option LootRunCostKind → EntryIds → String → String → CostInput → LootDb → Outcome
unfolding with_item insert_cost floor_or_zero trimmed
add_cost_of none ids run now c db = done db
add_cost_of (some LootRunCostKind.kinah) ids run now c db =
    let amount = floor_or_zero c.kinah in
    if amount == 0 then done db else insert_cost (kinah_cost ids run amount (trimmed c.note) now) db
add_cost_of (some LootRunCostKind.item) ids run now c db =
    let name = trimmed_or_empty c.item_name in
    let qty = floor_or_zero c.qty in
    if is_empty name
    then done db
    else if qty == 0
    then done db
    else with_item name ids.item ids.now
        (λ i. insert_cost (item_cost ids run i qty (trimmed c.note) now)) db

-- `for (const c of costs)`, from the `n`th on.
unfoldable pub add_costs : (ℕ → EntryIds) → String → String → ℕ → List CostInput → LootDb → Outcome
unfolding add_cost_of
add_costs fresh run now n [] db = done db
add_costs fresh run now n (c ∷ cs) db =
    then_do (add_cost_of c.kind (fresh n) run now c db) (add_costs fresh run now (suc n) cs)

-- `Math.max(0, Math.floor((e.getTime() - s.getTime()) / 1000))`, where both are dates.
abbrev pub seconds_between : Option ℕ → Option ℕ → ℕ
seconds_between none e = 0
seconds_between (some s) none = 0
seconds_between (some s) (some e) = (e - s) / 1000

abbrev pub seconds_from : (String → Option ℕ) → Option String → String → ℕ
seconds_from parse none ended_at = 0
seconds_from parse (some s) ended_at = seconds_between (parse s) (parse ended_at)

-- `parse` stands for the parser of the `Date` constructor.
unfoldable pub run_seconds : (String → Option ℕ) → Option Number → Option String → String → ℕ
run_seconds parse none started_at ended_at = seconds_from parse started_at ended_at
run_seconds parse (some not_finite) started_at ended_at = seconds_from parse started_at ended_at
run_seconds parse (some (finite n d)) started_at ended_at = floor_at_zero n d

abbrev pub filled : Option String → Option String
filled none = none
filled (some s) = if is_empty s then none else some s

unfoldable pub new_run : (String → Option ℕ) → RunInput → Option String → String → String → LootRun
unfolding run_seconds trimmed text_or
new_run parse input server id now =
    let ended_at = text_or input.ended_at now in
    record {
      id = id;
      character_id = input.character_id;
      server = server;
      content = trim input.content;
      role = trimmed input.role;
      power_bracket = trimmed input.power_bracket;
      started_at = filled input.started_at;
      ended_at = some ended_at;
      seconds = run_seconds parse input.seconds (filled input.started_at) ended_at;
      created_at = now;
      updated_at = now;
    }

-- What is done between BEGIN and COMMIT.
unfoldable pub run_statements :
    (String → Option ℕ) → RunIds → String → RunInput → Option String → LootDb → Outcome
unfolding insert_run add_drops add_costs new_run
run_statements parse ids now input server =
    insert_run (new_run parse input server ids.run now)
    >> add_drops ids.drop ids.run now 0 input.drops
    >> add_costs ids.cost ids.run now 0 input.costs

-- With the character's row, if it is there.
unfoldable pub create_for :
    (String → Option ℕ) → RunIds → String → RunInput → Option AppCharacter → LootDb → Outcome
unfolding transaction run_statements
create_for parse ids now input none db = (err no_character, db)
create_for parse ids now input (some c) db =
    transaction (run_statements parse ids now input c.server) db

-- The identity of the new run is `ids.run`.
unfoldable pub create_loot_run : (String → Option ℕ) → RunIds → String → RunInput → LootDb → Outcome
unfolding create_for
create_loot_run parse ids now input db =
    if is_empty input.character_id
    then (err bad_request, db)
    else if is_empty (trim input.content)
    then (err bad_request, db)
    else create_for parse ids now input
        (one_where (λ (c : AppCharacter). c.id === input.character_id) db.planner.characters) db
