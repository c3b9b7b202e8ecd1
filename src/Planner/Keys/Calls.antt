-- ===== src/Planner/Keys/Calls.antt =====
-- The calls of the planner one by one: which keys they keep apart.
use aion2_hub.Prelude.{
  ℕ, refl, inl, inr, String, ◌===◌, Bool, true, false, Bool-cases, Option, none, some, Option-cases,
  List, [], ◌∷◌,
}
use aion2_hub.Sql.{Result-cases, select_where, exists_where}
use aion2_hub.Sql.Laws.{insert_row_cases}
use aion2_hub.Sql.Distinct.{
  IfOk, IfOk-ok, IsFresh, same_key, delete-IsFresh, snoc-IsFresh, insert_or_ignore-IsFresh,
  update-IsFresh,
}
use aion2_hub.Planner.{
  AppCharacter, PlannerTemplate, PlannerAssignment, PlannerCompletion, PlannerChargeUse,
  PlannerDuration, PlannerSettingsRow, AppSetting, Database, resolve_date,
}
use aion2_hub.Planner.Characters.{
  CharacterInput, same_assignment, assign_templates, new_character, create_character,
  update_character, delete_character, upsert_setting, set_setting,
}
use aion2_hub.Planner.Settings.{SettingsInput, settings_row, upsert_settings}
use aion2_hub.Planner.Templates.{
  TemplateInput, new_template, assign_characters, create_planner_template, update_planner_template,
  delete_planner_template, delete_all_templates,
}
use aion2_hub.Planner.Presets.{
  Mode, merge, replace, RawTemplate, PresetCounts, make_key, has_key, apply_loop,
  apply_planner_preset, normalized_templates, prepared,
}
use aion2_hub.Planner.Progress.{
  CompletionInput, DurationInput, same_completion, complete, insert_completion,
  set_planner_completion, insert_charge_use, use_charge, insert_duration, add_planner_duration,
  undo_charge, latest_use, is_use, delete_planner_duration,
}
use aion2_hub.Planner.Keys.{
  HasKeys, character_key, template_key, use_key, duration_key, settings_key, setting_key,
}

pub assign_templates-IsFresh :
    (id : String) (now : ℕ) (ts : List PlannerTemplate) (rows : List PlannerAssignment)
    → IsFresh same_assignment rows
    → IsFresh same_assignment (assign_templates id now ts rows)
unfolding assign_templates
assign_templates-IsFresh id now [] rows f = f
assign_templates-IsFresh id now (t ∷ ts) rows f =
    assign_templates-IsFresh id now ts _ (insert_or_ignore-IsFresh same_assignment _ rows f)

assign_characters-IsFresh :
    (id : String) (now : ℕ) (cs : List AppCharacter) (rows : List PlannerAssignment)
    → IsFresh same_assignment rows
    → IsFresh same_assignment (assign_characters id now cs rows)
unfolding assign_characters
assign_characters-IsFresh id now [] rows f = f
assign_characters-IsFresh id now (c ∷ cs) rows f =
    assign_characters-IsFresh id now cs _ (insert_or_ignore-IsFresh same_assignment _ rows f)

pub create_character-HasKeys :
    (db : Database) (input : CharacterInput) (id : String) (now : ℕ)
    → HasKeys db
    → IfOk HasKeys (create_character db input id now)
unfolding create_character
create_character-HasKeys db input id now k =
    let c = new_character input id now in
    elim (insert_row_cases (same_key character_key c) c db.characters) [
      | inl e ↦ rw (e, create_character) tt
      | inr (fresh, e) ↦
          rw (e, create_character)
            (record {
              characters = snoc-IsFresh (same_key character_key) c db.characters k.characters fresh;
              templates = k.templates;
              assignments =
                  assign_templates-IsFresh id now db.templates db.assignments k.assignments;
              completions = k.completions;
              charge_uses = k.charge_uses;
              durations = k.durations;
              planner_settings = k.planner_settings;
              app_settings = k.app_settings;
            })
    ]

pub update_character-HasKeys :
    (db : Database) (id : String) (input : CharacterInput) (now : ℕ)
    → HasKeys db
    → HasKeys (update_character db id input now)
unfolding update_character
update_character-HasKeys db id input now k = record {
  characters =
      update-IsFresh (same_key character_key) _ (λ r s. refl) (λ r s. refl) _ db.characters
        k.characters;
  templates = k.templates;
  assignments = k.assignments;
  completions = k.completions;
  charge_uses = k.charge_uses;
  durations = k.durations;
  planner_settings = k.planner_settings;
  app_settings = k.app_settings;
}

pub delete_character-HasKeys :
    (db : Database) (id : String) → HasKeys db → HasKeys (delete_character db id)
unfolding delete_character
delete_character-HasKeys db id k = record {
  characters = delete-IsFresh (same_key character_key) _ db.characters k.characters;
  templates = k.templates;
  assignments = k.assignments;
  completions = k.completions;
  charge_uses = k.charge_uses;
  durations = k.durations;
  planner_settings = k.planner_settings;
  app_settings = k.app_settings;
}

pub create_template-HasKeys :
    (db : Database) (input : TemplateInput) (id : String) (now : ℕ)
    → HasKeys db
    → IfOk HasKeys (create_planner_template db input id now)
unfolding create_planner_template new_template
create_template-HasKeys db input id now k =
    let t = new_template input id now in
    elim (insert_row_cases (same_key template_key t) t db.templates) [
      | inl e ↦ rw (e, create_planner_template) tt
      | inr (fresh, e) ↦
          rw (e, create_planner_template)
            (record {
              characters = k.characters;
              templates = snoc-IsFresh (same_key template_key) t db.templates k.templates fresh;
              assignments =
                  assign_characters-IsFresh id now db.characters db.assignments k.assignments;
              completions = k.completions;
              charge_uses = k.charge_uses;
              durations = k.durations;
              planner_settings = k.planner_settings;
              app_settings = k.app_settings;
            })
    ]

pub update_template-HasKeys :
    (db : Database) (id : String) (input : TemplateInput) (now : ℕ)
    → HasKeys db
    → HasKeys (update_planner_template db id input now)
unfolding update_planner_template new_template
update_template-HasKeys db id input now k = record {
  characters = k.characters;
  templates =
      update-IsFresh (same_key template_key) _ (λ r s. refl) (λ r s. refl) _ db.templates
        k.templates;
  assignments = k.assignments;
  completions = k.completions;
  charge_uses = k.charge_uses;
  durations = k.durations;
  planner_settings = k.planner_settings;
  app_settings = k.app_settings;
}

pub delete_template-HasKeys :
    (db : Database) (id : String) → HasKeys db → HasKeys (delete_planner_template db id)
unfolding delete_planner_template
delete_template-HasKeys db id k = record {
  characters = k.characters;
  templates = delete-IsFresh (same_key template_key) _ db.templates k.templates;
  assignments = k.assignments;
  completions = k.completions;
  charge_uses = k.charge_uses;
  durations = k.durations;
  planner_settings = k.planner_settings;
  app_settings = k.app_settings;
}

delete_all-HasKeys : (db : Database) → HasKeys db → HasKeys (delete_all_templates db)
unfolding delete_all_templates
delete_all-HasKeys db k = record {
  characters = k.characters;
  templates = tt;
  assignments = k.assignments;
  completions = k.completions;
  charge_uses = k.charge_uses;
  durations = k.durations;
  planner_settings = k.planner_settings;
  app_settings = k.app_settings;
}

abbrev pub PairHasKeys : PresetCounts × Database → Type 0
PairHasKeys p = HasKeys p.1

module _ (lower : String → String) (fresh : ℕ → String) (clock : ℕ → ℕ) where
  apply_loop-HasKeys :
      (ts : List TemplateInput) (keys : List String) (n : PresetCounts) (db : Database)
      → HasKeys db
      → IfOk PairHasKeys (apply_loop lower fresh clock ts keys n db)
  unfolding apply_loop
  apply_loop-HasKeys [] keys n db k = k
  apply_loop-HasKeys (t ∷ ts) keys n db k =
      elim (Bool-cases (has_key (make_key lower t.type t.title) keys)) [
        | inl e ↦ rw e (apply_loop-HasKeys ts keys _ db k)
        | inr e ↦
            elim (Result-cases (create_planner_template db t (fresh n.created) (clock n.created))) [
              | inl (x, f) ↦ rw (e, f) tt
              | inr (db', f) ↦
                  rw (e, f)
                    (apply_loop-HasKeys ts _ _ db' (
                      IfOk-ok HasKeys f
                        (create_template-HasKeys db t (fresh n.created) (clock n.created) k)))
            ]
      ]

  prepared-HasKeys : (mode : Mode) (db : Database) → HasKeys db → HasKeys (prepared mode db)
  prepared-HasKeys merge db k = k
  prepared-HasKeys replace db k = delete_all-HasKeys db k

  pub apply_planner_preset-HasKeys :
      (db : Database) (mode : Mode) (templates : List (Option RawTemplate))
      → HasKeys db
      → IfOk PairHasKeys (apply_planner_preset lower fresh clock db mode templates)
  unfolding apply_planner_preset
  apply_planner_preset-HasKeys db mode templates k =
      apply_loop-HasKeys (normalized_templates templates) _ _ _ (prepared-HasKeys mode db k)

insert_completion-HasKeys :
    (db : Database) (row : PlannerCompletion) → HasKeys db → IfOk HasKeys (insert_completion db row)
unfolding insert_completion
insert_completion-HasKeys db row k =
    elim (Bool-cases (exists_where (same_completion row) db.completions)) [
      | inl e ↦ rw e k
      | inr e ↦ rw e (record {
        characters = k.characters;
        templates = k.templates;
        assignments = k.assignments;
        completions = snoc-IsFresh same_completion row db.completions k.completions e;
        charge_uses = k.charge_uses;
        durations = k.durations;
        planner_settings = k.planner_settings;
        app_settings = k.app_settings;
      })
    ]

complete-HasKeys :
    (db : Database) (input : CompletionInput) (at : ℕ) (id : String) (done : Bool)
    → HasKeys db
    → IfOk HasKeys (complete db input at id done)
unfolding complete
complete-HasKeys db input at id true k = insert_completion-HasKeys db _ k
complete-HasKeys db input at id false k = record {
  characters = k.characters;
  templates = k.templates;
  assignments = k.assignments;
  completions = delete-IsFresh same_completion _ db.completions k.completions;
  charge_uses = k.charge_uses;
  durations = k.durations;
  planner_settings = k.planner_settings;
  app_settings = k.app_settings;
}

pub set_planner_completion-HasKeys :
    (parse : String → Option ℕ) (db : Database) (input : CompletionInput) (clock : ℕ) (id : String)
    → HasKeys db
    → IfOk HasKeys (set_planner_completion parse db input clock id)
unfolding set_planner_completion
set_planner_completion-HasKeys parse db input clock id k =
    complete-HasKeys db input (resolve_date parse input.at_iso clock) id input.completed k

insert_charge_use-HasKeys :
    (db : Database) (row : PlannerChargeUse) → HasKeys db → IfOk HasKeys (insert_charge_use db row)
unfolding insert_charge_use
insert_charge_use-HasKeys db row k =
    elim (Bool-cases (exists_where (same_key use_key row) db.charge_uses)) [
      | inl e ↦ rw e tt
      | inr e ↦ rw e (record {
        characters = k.characters;
        templates = k.templates;
        assignments = k.assignments;
        completions = k.completions;
        charge_uses = snoc-IsFresh (same_key use_key) row db.charge_uses k.charge_uses e;
        durations = k.durations;
        planner_settings = k.planner_settings;
        app_settings = k.app_settings;
      })
    ]

pub use_charge-HasKeys :
    (parse : String → Option ℕ) (db : Database) (c t : String) (at : Option String) (clock : ℕ)
    (id : String)
    → HasKeys db
    → IfOk HasKeys (use_charge parse db c t at clock id)
unfolding use_charge
use_charge-HasKeys parse db c t at clock id k = insert_charge_use-HasKeys db _ k

pub undo_charge-HasKeys :
    (db : Database) (c t : String) → HasKeys db → HasKeys (undo_charge db c t).1
unfolding undo_charge
undo_charge-HasKeys db c t k =
    elim (Option-cases (latest_use (select_where (is_use c t) db.charge_uses))) [
      | inl e ↦ rw (e, undo_charge) k
      | inr (u, e) ↦
          rw (e, undo_charge)
            (record {
              characters = k.characters;
              templates = k.templates;
              assignments = k.assignments;
              completions = k.completions;
              charge_uses = delete-IsFresh (same_key use_key) _ db.charge_uses k.charge_uses;
              durations = k.durations;
              planner_settings = k.planner_settings;
              app_settings = k.app_settings;
            })
    ]

insert_duration-HasKeys :
    (db : Database) (row : PlannerDuration) → HasKeys db → IfOk HasKeys (insert_duration db row)
unfolding insert_duration
insert_duration-HasKeys db row k =
    elim (Bool-cases (exists_where (same_key duration_key row) db.durations)) [
      | inl e ↦ rw e tt
      | inr e ↦ rw e (record {
        characters = k.characters;
        templates = k.templates;
        assignments = k.assignments;
        completions = k.completions;
        charge_uses = k.charge_uses;
        durations = snoc-IsFresh (same_key duration_key) row db.durations k.durations e;
        planner_settings = k.planner_settings;
        app_settings = k.app_settings;
      })
    ]

pub add_planner_duration-HasKeys :
    (parse : String → Option ℕ) (db : Database) (input : DurationInput) (id : String)
    → HasKeys db
    → IfOk HasKeys (add_planner_duration parse db input id)
unfolding add_planner_duration
add_planner_duration-HasKeys parse db input id k = elim (Option-cases (parse input.started_at)) [
  | inl e ↦ rw (e, add_planner_duration) tt
  | inr (a, e) ↦ elim (Option-cases (parse input.ended_at)) [
    | inl f ↦ rw (e, f, add_planner_duration) tt
    | inr (b, f) ↦ rw (e, f, add_planner_duration) (insert_duration-HasKeys db _ k)
  ]
]

pub delete_duration-HasKeys :
    (db : Database) (id c : String) → HasKeys db → HasKeys (delete_planner_duration db id c)
unfolding delete_planner_duration
delete_duration-HasKeys db id c k = record {
  characters = k.characters;
  templates = k.templates;
  assignments = k.assignments;
  completions = k.completions;
  charge_uses = k.charge_uses;
  durations = delete-IsFresh (same_key duration_key) _ db.durations k.durations;
  planner_settings = k.planner_settings;
  app_settings = k.app_settings;
}

pub settings-HasKeys :
    (db : Database) (rows : List PlannerSettingsRow)
    → IsFresh (same_key settings_key) rows
    → HasKeys db
    → HasKeys (record db { planner_settings = rows })
settings-HasKeys db rows f k = record {
  characters = k.characters;
  templates = k.templates;
  assignments = k.assignments;
  completions = k.completions;
  charge_uses = k.charge_uses;
  durations = k.durations;
  planner_settings = f;
  app_settings = k.app_settings;
}

pub upsert_settings-IsFresh :
    (id : String) (input : SettingsInput) (now : ℕ) (rows : List PlannerSettingsRow)
    → IsFresh (same_key settings_key) rows
    → IsFresh (same_key settings_key) (upsert_settings id input now rows)
unfolding upsert_settings
upsert_settings-IsFresh id input now rows f =
    elim (Bool-cases (exists_where (λ (r : PlannerSettingsRow). r.id === id) rows)) [
      | inl e ↦ rw e (
          update-IsFresh (same_key settings_key) (λ r. settings_row r.id input now) (λ r s. refl)
            (λ r s. refl) _ rows f)
      | inr e ↦ rw e (snoc-IsFresh (same_key settings_key) _ rows f e)
    ]

upsert_setting-IsFresh :
    (key value : String) (rows : List AppSetting)
    → IsFresh (same_key setting_key) rows
    → IsFresh (same_key setting_key) (upsert_setting key value rows)
unfolding upsert_setting
upsert_setting-IsFresh key value rows f =
    elim (Bool-cases (exists_where (λ (s : AppSetting). s.key === key) rows)) [
      | inl e ↦ rw e (
          update-IsFresh (same_key setting_key) (λ s. record s { value = value }) (λ r s. refl)
            (λ r s. refl) _ rows f)
      | inr e ↦ rw e (snoc-IsFresh (same_key setting_key) _ rows f e)
    ]

pub set_setting-HasKeys :
    (db : Database) (key : String) (value : Option String)
    → HasKeys db
    → HasKeys (set_setting db key value)
unfolding set_setting
set_setting-HasKeys db key none k = record {
  characters = k.characters;
  templates = k.templates;
  assignments = k.assignments;
  completions = k.completions;
  charge_uses = k.charge_uses;
  durations = k.durations;
  planner_settings = k.planner_settings;
  app_settings = delete-IsFresh (same_key setting_key) _ db.app_settings k.app_settings;
}
set_setting-HasKeys db key (some v) k = record {
  characters = k.characters;
  templates = k.templates;
  assignments = k.assignments;
  completions = k.completions;
  charge_uses = k.charge_uses;
  durations = k.durations;
  planner_settings = k.planner_settings;
  app_settings = upsert_setting-IsFresh key v db.app_settings k.app_settings;
}
