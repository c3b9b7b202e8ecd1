-- ===== src/Backup/Rows.antt =====
-- What `importUserBackup` of apps/desktop/src/main/storage/domains/backup.ts reads of a whole
-- backup, before BEGIN.
use aion2_hub.Prelude.{List, ◌∷◌, map, String, Bool, Option}
use aion2_hub.Sql.{select_where}
use aion2_hub.Planner.{
  AppCharacter, PlannerTemplate, PlannerAssignment, PlannerCompletion, PlannerChargeUse,
  PlannerDuration, PlannerSettingsRow,
}
use aion2_hub.Economy.{EconomyItem, EconomyPrice, EconomyPriceWatch}
use aion2_hub.Loot.{LootRun, LootRunDrop, LootRunCost}
use aion2_hub.Json.{Json, get}
use aion2_hub.BuildStorage.{ScoreRow, PresetRow}
use aion2_hub.Backup.{World, text_at, object_at, is_member}
use aion2_hub.Backup.Reads.{
  BackupSettings, default_settings, server_settings, read_characters, read_templates, read_scores,
  read_presets, read_items, read_prices, read_watches,
}
use aion2_hub.Backup.Entries.{
  read_runs, read_drops, read_costs, read_assignments, read_completions, read_charge_uses,
  read_durations,
}

-- What the backup is read into.
pub record BackupRows : Type 0 where
  pub settings : List PlannerSettingsRow
  pub active_character_id : Option String
  pub characters : List AppCharacter
  pub templates : List PlannerTemplate
  pub assignments : List PlannerAssignment
  pub completions : List PlannerCompletion
  pub charge_uses : List PlannerChargeUse
  pub durations : List PlannerDuration
  pub items : List EconomyItem
  pub prices : List EconomyPrice
  pub watches : List EconomyPriceWatch
  pub scores : List ScoreRow
  pub presets : List PresetRow
  pub runs : List LootRun
  pub drops : List LootRunDrop
  pub costs : List LootRunCost

abbrev pub default_row : World → String → BackupSettings → PlannerSettingsRow
default_row w now s = record {
  id = "default";
  daily_reset_hhmm = s.daily_reset_hhmm;
  weekly_reset_day = s.weekly_reset_day;
  updated_at = w.of_iso now;
}

unfoldable pub read_backup : World → String → Bool → Json → BackupRows
unfolding default_settings server_settings read_characters read_templates read_scores read_presets
    read_items read_prices read_watches read_runs read_drops read_costs read_assignments
    read_completions read_charge_uses read_durations get
read_backup w now first_version backup =
    let planner = object_at backup "planner" in
    let builds = object_at backup "buildScore" in
    let economy = object_at backup "economy" in
    let loot = object_at backup "loot" in
    let base = default_settings first_version planner in
    let characters = read_characters w now backup in
    let character_ids = map (λ (c : AppCharacter). c.id) characters in
    let templates = read_templates w now planner in
    let template_ids = map (λ (t : PlannerTemplate). t.id) templates in
    let items = read_items now economy in
    let item_ids = map (λ (i : EconomyItem). i.id) items in
    let runs = read_runs now character_ids loot in
    let run_ids = map (λ (r : LootRun). r.id) runs in
    record {
      settings = default_row w now base ∷ server_settings w now first_version base planner;
      active_character_id = text_at backup "activeCharacterId";
      characters = characters;
      templates = templates;
      assignments = read_assignments w now character_ids template_ids planner;
      completions = read_completions w now character_ids template_ids planner;
      charge_uses = read_charge_uses w now character_ids template_ids planner;
      durations = read_durations w now character_ids template_ids planner;
      items = items;
      prices = read_prices now item_ids economy;
      watches = read_watches now item_ids economy;
      scores =
          select_where (λ (s : ScoreRow). is_member character_ids s.character_id)
            (read_scores w now builds);
      presets =
          select_where (λ (p : PresetRow). is_member character_ids p.character_id)
            (read_presets w now builds);
      runs = runs;
      drops = read_drops now run_ids item_ids loot;
      costs = read_costs now run_ids item_ids loot;
    }
