-- ===== src/Backup/Writes.antt =====
-- What `importUserBackup` of apps/desktop/src/main/storage/domains/backup.ts writes, between BEGIN
-- and COMMIT. The tables of assignments, completions, charges, durations, build scores and the
-- logbook are not cleared before. Only an INSERT of a key that is taken throws, with one error for
-- all tables, so the statements stand table by table.
use aion2_hub.Prelude.{ℕ, List, [], ◌∷◌, ◌++◌, String, Bool, Option, none, some, if◌then◌else◌}
use aion2_hub.Text.{is_empty}
use aion2_hub.Sql.{Result, ok, ◌>>=◌, delete_where, insert_row, insert_or_ignore}
use aion2_hub.Sql.Distinct.{same_key}
use aion2_hub.Planner.{AppCharacter, PlannerTemplate, PlannerAssignment, Database}
use aion2_hub.Planner.Characters.{same_assignment, assign_templates, set_active_character_id}
use aion2_hub.Planner.Progress.{same_completion}
use aion2_hub.Planner.Keys.{character_key, template_key, use_key, duration_key, settings_key}
use aion2_hub.Economy.{EconomyItem, EconomyPrice, EconomyPriceWatch, EconomyDb, same_item}
use aion2_hub.Loot.{LootRun, LootRunDrop, LootRunCost, LootDb}
use aion2_hub.BuildStorage.{ScoreRow, PresetRow}
use aion2_hub.Backup.{UserDb}
use aion2_hub.Backup.Rows.{BackupRows}

module _ {ℓ} {A : Type ℓ} where
  -- `INSERT OR REPLACE`: the rows with a key of the new row go.
  unfoldable pub replace_row : (A → A → Bool) → A → List A → List A
  replace_row same r rs = delete_where (same r) rs ++ r ∷ []

  unfoldable pub ignore_row : (A → A → Bool) → A → List A → List A
  unfolding insert_or_ignore
  ignore_row same r rs = insert_or_ignore (same r) r rs

  -- A loop of statements that do not throw.
  unfoldable pub write_all : (A → List A → List A) → List A → List A → List A
  write_all statement [] rows = rows
  write_all statement (r ∷ rs) rows = write_all statement rs (statement r rows)

  -- A loop of `INSERT`.
  unfoldable pub insert_all : (A → A → Bool) → List A → List A → Result (List A)
  unfolding insert_row
  insert_all same [] rows = ok rows
  insert_all same (r ∷ rs) rows = insert_row (same r) r rows >>= insert_all same rs

abbrev pub price_key : EconomyPrice → String
price_key p = p.id

abbrev pub watch_key : EconomyPriceWatch → String
watch_key w = w.id

abbrev pub run_key : LootRun → String
run_key r = r.id

abbrev pub drop_key : LootRunDrop → String
drop_key d = d.id

abbrev pub cost_key : LootRunCost → String
cost_key c = c.id

abbrev pub score_key : ScoreRow → String
score_key s = s.character_id

abbrev pub preset_key : PresetRow → String
preset_key p = p.id

-- The identity or the unique name of an item.
abbrev pub same_identity : EconomyItem → EconomyItem → Bool
same_identity i j = same_item i.id i.name j

-- `if (activeCharacterId) setActiveCharacterId(…)`.
abbrev pub active_set : Option String → Database → Database
active_set none db = db
active_set (some id) db = if is_empty id then db else set_active_character_id db (some id)

-- `CROSS JOIN` of the characters and the templates, to assign each to each.
unfoldable pub assign_all :
    ℕ → List AppCharacter → List PlannerTemplate → List PlannerAssignment → List PlannerAssignment
unfolding assign_templates
assign_all now [] ts rows = rows
assign_all now (c ∷ cs) ts rows = assign_all now cs ts (assign_templates c.id now ts rows)

-- Characters, templates and settings, whose tables are cleared before.
unfoldable pub write_characters : BackupRows → Database → Result Database
unfolding insert_all set_active_character_id
write_characters b db = do
  settings ← insert_all (same_key settings_key) b.settings []
  characters ← insert_all (same_key character_key) b.characters []
  templates ← insert_all (same_key template_key) b.templates []
  ok (
      active_set b.active_character_id (record db {
        planner_settings = settings;
        characters = characters;
        templates = templates;
        app_settings = [];
      }))

unfoldable pub write_planner_rows : ℕ → BackupRows → Database → Database
unfolding write_all ignore_row assign_all
write_planner_rows now b db = record db {
  assignments =
      assign_all now db.characters db.templates
        (write_all (ignore_row same_assignment) b.assignments db.assignments);
  completions = write_all (ignore_row same_completion) b.completions db.completions;
  charge_uses = write_all (ignore_row (same_key use_key)) b.charge_uses db.charge_uses;
  durations = write_all (ignore_row (same_key duration_key)) b.durations db.durations;
}

-- The tables of the economy are cleared before.
unfoldable pub write_economy : BackupRows → EconomyDb
unfolding write_all replace_row
write_economy b = record {
  items = write_all (replace_row same_identity) b.items [];
  prices = write_all (replace_row (same_key price_key)) b.prices [];
  watches = write_all (replace_row (same_key watch_key)) b.watches [];
  alerts = [];
}

unfoldable pub write_logbook : BackupRows → Database → LootDb → LootDb
unfolding write_all replace_row write_economy
write_logbook b planner db = record {
  planner = planner;
  economy = write_economy b;
  runs = write_all (replace_row (same_key run_key)) b.runs db.runs;
  drops = write_all (replace_row (same_key drop_key)) b.drops db.drops;
  costs = write_all (replace_row (same_key cost_key)) b.costs db.costs;
}

unfoldable pub write_builds : BackupRows → LootDb → UserDb → UserDb
unfolding write_all replace_row
write_builds b logbook db = record {
  logbook = logbook;
  scores = write_all (replace_row (same_key score_key)) b.scores db.scores;
  presets = write_all (replace_row (same_key preset_key)) b.presets db.presets;
}

unfoldable pub write_backup : ℕ → BackupRows → UserDb → Result UserDb
unfolding write_characters write_planner_rows write_logbook write_builds
write_backup now b db = do
  base ← write_characters b db.logbook.planner
  ok (write_builds b (write_logbook b (write_planner_rows now b base) db.logbook) db)
