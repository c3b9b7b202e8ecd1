-- ===== src/Planner/Keys/History.antt =====
-- The planner database over any history of calls.
use aion2_hub.Prelude.{◌≡◌, ℕ, String, Option, List, []}
use aion2_hub.Sql.{ok}
use aion2_hub.Planner.{Database}
use aion2_hub.Planner.Characters.{
  CharacterInput, create_character, update_character, delete_character, set_setting,
}
use aion2_hub.Planner.Settings.{
  SettingsInput, set_planner_settings_default, set_planner_settings_for_server,
  clear_planner_settings_for_server, get_planner_settings,
}
use aion2_hub.Planner.Templates.{
  TemplateInput, create_planner_template, update_planner_template, delete_planner_template,
}
use aion2_hub.Planner.Presets.{Mode, RawTemplate, PresetCounts, apply_planner_preset}
use aion2_hub.Planner.Progress.{
  CompletionInput, DurationInput, set_planner_completion, use_charge, undo_charge,
  add_planner_duration, delete_planner_duration,
}

-- What the program takes from outside: the parser of dates, `toLowerCase`, the texts of
-- `randomUUID` and the times that one call reads.
pub record World : Type 0 where
  pub parse : String → Option ℕ
  pub lower : String → String
  pub fresh : ℕ → String
  pub clock : ℕ → ℕ

abbrev pub empty_database : Database
empty_database = record {
  characters = [];
  templates = [];
  assignments = [];
  completions = [];
  charge_uses = [];
  durations = [];
  planner_settings = [];
  app_settings = [];
}

-- One call that does not throw.
pub data Step (db db' : Database) : Type 0 where
  creates_character :
      (input : CharacterInput) (id : String) (now : ℕ)
      → create_character db input id now ≡ ok db'
      → Step db db'
  updates_character :
      (id : String) (input : CharacterInput) (now : ℕ)
      → db' ≡ update_character db id input now
      → Step db db'
  deletes_character : (id : String) → db' ≡ delete_character db id → Step db db'
  creates_template :
      (input : TemplateInput) (id : String) (now : ℕ)
      → create_planner_template db input id now ≡ ok db'
      → Step db db'
  updates_template :
      (id : String) (input : TemplateInput) (now : ℕ)
      → db' ≡ update_planner_template db id input now
      → Step db db'
  deletes_template : (id : String) → db' ≡ delete_planner_template db id → Step db db'
  applies_preset :
      (w : World) (mode : Mode) (templates : List (Option RawTemplate)) (n : PresetCounts)
      → apply_planner_preset w.lower w.fresh w.clock db mode templates ≡ ok (n, db')
      → Step db db'
  completes :
      (w : World) (input : CompletionInput) (id : String)
      → set_planner_completion w.parse db input (w.clock 0) id ≡ ok db'
      → Step db db'
  uses :
      (w : World) (c t : String) (at : Option String) (id : String)
      → use_charge w.parse db c t at (w.clock 0) id ≡ ok db'
      → Step db db'
  undoes : (c t : String) → db' ≡ (undo_charge db c t).1 → Step db db'
  adds_duration :
      (w : World) (input : DurationInput) (id : String)
      → add_planner_duration w.parse db input id ≡ ok db'
      → Step db db'
  deletes_duration : (id c : String) → db' ≡ delete_planner_duration db id c → Step db db'
  reads_settings : (now : ℕ) → db' ≡ (get_planner_settings db now).1 → Step db db'
  sets_default :
      (input : SettingsInput) (now : ℕ)
      → db' ≡ set_planner_settings_default db input now
      → Step db db'
  sets_server :
      (server : String) (input : SettingsInput) (now : ℕ)
      → db' ≡ set_planner_settings_for_server db server input now
      → Step db db'
  clears_server :
      (server : String) → db' ≡ clear_planner_settings_for_server db server → Step db db'
  sets_setting :
      (key : String) (value : Option String) → db' ≡ set_setting db key value → Step db db'

pub data Reach : Database → Type 0 where
  start : Reach empty_database
  next : {db db' : Database} → Reach db → Step db db' → Reach db'
