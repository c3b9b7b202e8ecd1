-- ===== src/Backup/Restored.antt =====
-- What `importUserBackup` of apps/desktop/src/main/storage/domains/backup.ts makes of a backup
-- whose rows have keys of their own: the tables hold its rows.
use aion2_hub.Prelude.{ℕ, ◌≡◌, Bool, false, List, [], ◌++◌}
use aion2_hub.Prelude.Sort.{All}
use aion2_hub.Sql.{exists_where}
use aion2_hub.Sql.Distinct.{IsFresh, same_key}
use aion2_hub.Planner.{Database}
use aion2_hub.Planner.Characters.{same_assignment}
use aion2_hub.Planner.Progress.{same_completion}
use aion2_hub.Planner.Keys.{character_key, template_key, use_key, duration_key, settings_key}
use aion2_hub.Json.{Json}
use aion2_hub.Backup.{UserDb}
use aion2_hub.Backup.Rows.{BackupRows}
use aion2_hub.Backup.Writes.{
  price_key, watch_key, run_key, drop_key, cost_key, score_key, preset_key, same_identity,
  active_set, assign_all,
}

module _ {A : Type 0} where
  module _ (same : A → A → Bool) where
    -- No row of the table has the key of one of these.
    abbrev pub IsFreshFor : List A → List A → Type 0
    IsFreshFor rows rs = All (λ r. exists_where (same r) rows ≡ false) rs

-- The rows of the backup have keys that no other row of it has, nor one of the tables that are not
-- cleared.
pub record IsNew (b : BackupRows) (db : UserDb) : Type 0 where
  pub settings : IsFresh (same_key settings_key) b.settings
  pub characters : IsFresh (same_key character_key) b.characters
  pub templates : IsFresh (same_key template_key) b.templates
  pub items : IsFresh same_identity b.items
  pub prices : IsFresh (same_key price_key) b.prices
  pub watches : IsFresh (same_key watch_key) b.watches
  pub assignments :
      IsFresh same_assignment b.assignments
      × IsFreshFor same_assignment db.logbook.planner.assignments b.assignments
  pub completions :
      IsFresh same_completion b.completions
      × IsFreshFor same_completion db.logbook.planner.completions b.completions
  pub charge_uses :
      IsFresh (same_key use_key) b.charge_uses
      × IsFreshFor (same_key use_key) db.logbook.planner.charge_uses b.charge_uses
  pub durations :
      IsFresh (same_key duration_key) b.durations
      × IsFreshFor (same_key duration_key) db.logbook.planner.durations b.durations
  pub runs :
      IsFresh (same_key run_key) b.runs × IsFreshFor (same_key run_key) db.logbook.runs b.runs
  pub drops :
      IsFresh (same_key drop_key) b.drops × IsFreshFor (same_key drop_key) db.logbook.drops b.drops
  pub costs :
      IsFresh (same_key cost_key) b.costs × IsFreshFor (same_key cost_key) db.logbook.costs b.costs
  pub scores :
      IsFresh (same_key score_key) b.scores × IsFreshFor (same_key score_key) db.scores b.scores
  pub presets :
      IsFresh (same_key preset_key) b.presets
      × IsFreshFor (same_key preset_key) db.presets b.presets

-- The settings, the characters, the templates and the active character are those of the backup.
abbrev pub restored_base : BackupRows → Database → Database
restored_base b db = active_set b.active_character_id (record db {
  planner_settings = b.settings;
  characters = b.characters;
  templates = b.templates;
  app_settings = [];
})

-- The rows of the backup stand after those that were there; all templates are assigned to all
-- characters.
abbrev pub restored_planner : ℕ → BackupRows → Database → Database
restored_planner now b db = record (restored_base b db) {
  assignments = assign_all now b.characters b.templates (db.assignments ++ b.assignments);
  completions = db.completions ++ b.completions;
  charge_uses = db.charge_uses ++ b.charge_uses;
  durations = db.durations ++ b.durations;
}

abbrev pub restored : ℕ → BackupRows → UserDb → UserDb
restored now b db = record {
  logbook = record {
    planner = restored_planner now b db.logbook.planner;
    economy = record { items = b.items; prices = b.prices; watches = b.watches; alerts = [] };
    runs = db.logbook.runs ++ b.runs;
    drops = db.logbook.drops ++ b.drops;
    costs = db.logbook.costs ++ b.costs;
  };
  scores = db.scores ++ b.scores;
  presets = db.presets ++ b.presets;
}

-- The tables that `active_set` leaves alone.
record SameTables (db db' : Database) : Type 0 where
  characters : db'.characters ≡ db.characters
  templates : db'.templates ≡ db.templates
  assignments : db'.assignments ≡ db.assignments
  completions : db'.completions ≡ db.completions
  charge_uses : db'.charge_uses ≡ db.charge_uses
  durations : db'.durations ≡ db.durations
