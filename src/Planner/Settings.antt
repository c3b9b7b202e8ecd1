-- ===== src/Planner/Settings.antt =====
-- The planner settings of apps/desktop/src/main/storage/domains/planner.ts: a default, and for
-- each server a row of its own that goes before it.
pub mod Reads
pub mod Effective
use aion2_hub.Prelude.{
  ℕ, List, [], ◌∷◌, ◌++◌, String, Bool, ◌===◌, Option, none, some, if◌then◌else◌,
}
use aion2_hub.Prelude.Int.{ℤ, pos}
use aion2_hub.Text.{◌<+>◌, trim, is_empty}
use aion2_hub.Sql.{delete_where, update_where, exists_where, one_where}
use aion2_hub.Planner.{PlannerSettingsRow, Database}

pub record PlannerSettings : Type 0 where
  pub daily_reset_hhmm : String
  pub weekly_reset_day : ℤ
  pub updated_at : ℕ

pub record SettingsInput : Type 0 where
  pub daily_reset_hhmm : String
  pub weekly_reset_day : ℤ

pub data PlannerSettingsScope : Type 0 where
  default_scope server_scope : PlannerSettingsScope

pub record PlannerSettingsBundle : Type 0 where
  pub default : PlannerSettings
  pub server : Option (String × PlannerSettings)
  pub effective : PlannerSettings
  pub effective_scope : PlannerSettingsScope

unfoldable pub normalize_server_name : Option String → Option String
normalize_server_name none = none
normalize_server_name (some server) = if is_empty (trim server) then none else some (trim server)

unfoldable pub planner_settings_id_for_server : String → String
planner_settings_id_for_server server = "server:" <+> server

unfoldable pub read_planner_settings_by_id : Database → String → Option PlannerSettings
read_planner_settings_by_id db id =
    elim (one_where (λ (r : PlannerSettingsRow). r.id === id) db.planner_settings) [
      | none ↦ none
      | some r ↦ some (record {
        daily_reset_hhmm = r.daily_reset_hhmm;
        weekly_reset_day = r.weekly_reset_day;
        updated_at = r.updated_at;
      })
    ]

abbrev pub settings_row : String → SettingsInput → ℕ → PlannerSettingsRow
settings_row id input now = record {
  id = id;
  daily_reset_hhmm = input.daily_reset_hhmm;
  weekly_reset_day = input.weekly_reset_day;
  updated_at = now;
}

abbrev pub initial_settings : SettingsInput
initial_settings = record { daily_reset_hhmm = "09:00"; weekly_reset_day = pos 1 }

-- The default is written when it is first read.
unfoldable pub get_planner_settings : Database → ℕ → PlannerSettings × Database
get_planner_settings db now = elim (read_planner_settings_by_id db "default") [
  | some settings ↦ (settings, db)
  | none ↦ (
    record { daily_reset_hhmm = "09:00"; weekly_reset_day = pos 1; updated_at = now },
    record db {
      planner_settings = db.planner_settings ++ settings_row "default" initial_settings now ∷ [];
    },
  )
]

abbrev pub default_bundle : PlannerSettings → PlannerSettingsBundle
default_bundle base = record {
  default = base;
  server = none;
  effective = base;
  effective_scope = PlannerSettingsScope.default_scope;
}

unfoldable pub bundle_for : Database → PlannerSettings → Option String → PlannerSettingsBundle
bundle_for db base none = default_bundle base
bundle_for db base (some server) =
    elim (read_planner_settings_by_id db (planner_settings_id_for_server server)) [
      | none ↦ default_bundle base
      | some settings ↦ record {
        default = base;
        server = some (server, settings);
        effective = settings;
        effective_scope = PlannerSettingsScope.server_scope;
      }
    ]

unfoldable pub get_planner_settings_bundle :
    Database → Option String → ℕ → PlannerSettingsBundle × Database
unfolding bundle_for
get_planner_settings_bundle db server now =
    let (base, db') = get_planner_settings db now in
    (bundle_for db' base (normalize_server_name server), db')

unfoldable pub get_planner_settings_effective :
    Database → Option String → ℕ → PlannerSettings × PlannerSettingsScope × Database
get_planner_settings_effective db server now =
    let (bundle, db') = get_planner_settings_bundle db server now in
    (bundle.effective, bundle.effective_scope, db')

-- `INSERT … ON CONFLICT(id) DO UPDATE`.
unfoldable pub upsert_settings :
    String → SettingsInput → ℕ → List PlannerSettingsRow → List PlannerSettingsRow
upsert_settings id input now rows =
    if exists_where (λ (r : PlannerSettingsRow). r.id === id) rows
    then update_where (λ (r : PlannerSettingsRow). r.id === id) (λ r. settings_row r.id input now)
        rows
    else rows ++ settings_row id input now ∷ []

unfoldable pub set_planner_settings_default : Database → SettingsInput → ℕ → Database
set_planner_settings_default db input now = record db {
  planner_settings = upsert_settings "default" input now db.planner_settings;
}

-- `setPlannerSettings`.
unfoldable pub set_planner_settings : Database → SettingsInput → ℕ → Database
unfolding set_planner_settings_default
set_planner_settings db input now = set_planner_settings_default db input now

unfoldable pub set_planner_settings_for_server : Database → String → SettingsInput → ℕ → Database
set_planner_settings_for_server db server input now = elim (normalize_server_name (some server)) [
  | none ↦ db
  | some name ↦ record db {
    planner_settings =
        upsert_settings (planner_settings_id_for_server name) input now db.planner_settings;
  }
]

unfoldable pub clear_planner_settings_for_server : Database → String → Database
clear_planner_settings_for_server db server = elim (normalize_server_name (some server)) [
  | none ↦ db
  | some name ↦ record db {
    planner_settings =
        delete_where (λ (r : PlannerSettingsRow). r.id === planner_settings_id_for_server name)
          db.planner_settings;
  }
]
