-- ===== src/Planner/Keys.antt =====
-- No operation of the planner makes two rows of one table share a key: the primary keys and the
-- unique pairs and threes of the schema, over all operations and any history of them.
pub mod Calls
pub mod History
use aion2_hub.Prelude.{String}
use aion2_hub.Sql.Distinct.{IsFresh, same_key}
use aion2_hub.Planner.{
  AppCharacter, PlannerTemplate, PlannerChargeUse, PlannerDuration, PlannerSettingsRow, AppSetting,
  Database,
}
use aion2_hub.Planner.Characters.{same_assignment}
use aion2_hub.Planner.Progress.{same_completion}

abbrev pub character_key : AppCharacter → String
character_key c = c.id

abbrev pub template_key : PlannerTemplate → String
template_key t = t.id

abbrev pub use_key : PlannerChargeUse → String
use_key u = u.id

abbrev pub duration_key : PlannerDuration → String
duration_key d = d.id

abbrev pub settings_key : PlannerSettingsRow → String
settings_key s = s.id

abbrev pub setting_key : AppSetting → String
setting_key s = s.key

-- The keys of all tables of the planner.
pub record HasKeys (db : Database) : Type 0 where
  pub characters : IsFresh (same_key character_key) db.characters
  pub templates : IsFresh (same_key template_key) db.templates
  pub assignments : IsFresh same_assignment db.assignments
  pub completions : IsFresh same_completion db.completions
  pub charge_uses : IsFresh (same_key use_key) db.charge_uses
  pub durations : IsFresh (same_key duration_key) db.durations
  pub planner_settings : IsFresh (same_key settings_key) db.planner_settings
  pub app_settings : IsFresh (same_key setting_key) db.app_settings
