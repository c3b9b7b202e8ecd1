-- ===== src/Planner.antt =====
-- The planner's part of the desktop database: the rows of
-- apps/desktop/src/main/storage/schema.ts and types.ts.
-- A time is a number of milliseconds, which stands for the text that `toISOString` makes of it;
-- texts of that form compare as their times do.
pub mod Characters
pub mod Settings
pub mod Templates
pub mod Presets
pub mod Progress
pub mod Overview
pub mod Keys
pub mod Assigned
use aion2_hub.Prelude.{
  ℕ, List, [], String, Bool, true, false, ◌&&◌, ◌===◌, Option, none, some, ◌||◌, if◌then◌else◌,
}
use aion2_hub.Prelude.Int.{ℤ}
use aion2_hub.Text.{is_empty}
use aion2_hub.Sql.{exists_where}

pub data TemplateType : Type 0 where
  daily weekly charge : TemplateType

pub record AppCharacter : Type 0 where
  pub id : String
  pub name : String
  pub server : Option String
  pub class : Option String
  pub created_at : ℕ
  pub updated_at : ℕ

pub record PlannerTemplate : Type 0 where
  pub id : String
  pub title : String
  pub type : TemplateType
  pub estimate_minutes : ℕ
  pub recharge_hours : Option ℕ
  pub max_stacks : Option ℕ
  pub created_at : ℕ
  pub updated_at : ℕ

pub record PlannerAssignment : Type 0 where
  pub id : String
  pub character_id : String
  pub template_id : String
  pub enabled : Bool
  pub created_at : ℕ

pub record PlannerCompletion : Type 0 where
  pub id : String
  pub character_id : String
  pub template_id : String
  pub period_key : String
  pub completed_at : ℕ

pub record PlannerChargeUse : Type 0 where
  pub id : String
  pub character_id : String
  pub template_id : String
  pub used_at : ℕ

pub record PlannerDuration : Type 0 where
  pub id : String
  pub character_id : String
  pub template_id : Option String
  pub started_at : ℕ
  pub ended_at : ℕ
  pub seconds : ℕ

pub record PlannerSettingsRow : Type 0 where
  pub id : String
  pub daily_reset_hhmm : String
  pub weekly_reset_day : ℤ
  pub updated_at : ℕ

pub record AppSetting : Type 0 where
  pub key : String
  pub value : String

pub record Database : Type 0 where
  pub characters : List AppCharacter
  pub templates : List PlannerTemplate
  pub assignments : List PlannerAssignment
  pub completions : List PlannerCompletion
  pub charge_uses : List PlannerChargeUse
  pub durations : List PlannerDuration
  pub planner_settings : List PlannerSettingsRow
  pub app_settings : List AppSetting

-- `nowIso ? new Date(nowIso) : new Date()`, and the clock again where that is no date. `parse`
-- stands for the parser of the `Date` constructor.
unfoldable pub resolve_date : (String → Option ℕ) → Option String → ℕ → ℕ
resolve_date parse none clock = clock
resolve_date parse (some iso) clock =
    if is_empty iso then clock else elim (parse iso) [ none ↦ clock | some t ↦ t ]
