-- ===== src/Planner/Characters.antt =====
-- apps/desktop/src/main/storage/domains/characters.ts and appSettings.ts.
use aion2_hub.Prelude.{
  ℕ, List, [], ◌∷◌, ◌++◌, String, Bool, true, ◌&&◌, ◌||◌, ◌===◌, Option, none, some, if◌then◌else◌,
  map, leb, ◌==◌,
}
use aion2_hub.Text.{◌<+>◌, is_empty}
use aion2_hub.Sql.{
  Result, ok, ◌>>=◌, delete_where, update_where, exists_where, one_where, insert_row,
  insert_or_ignore, order_by,
}
use aion2_hub.Planner.{AppCharacter, PlannerTemplate, PlannerAssignment, AppSetting, Database}

pub record CharacterInput : Type 0 where
  pub name : String
  pub server : Option String
  pub class : Option String

-- `r.server ? String(r.server) : null`: an empty text is read as none.
unfoldable pub read_text : Option String → Option String
read_text none = none
read_text (some s) = if is_empty s then none else some s

unfoldable pub read_character : AppCharacter → AppCharacter
read_character c = record c { server = read_text c.server; class = read_text c.class }

-- `ORDER BY updated_at DESC, created_at DESC`.
unfoldable pub list_characters : Database → List AppCharacter
unfolding read_character
list_characters db = map read_character (
    order_by
      (λ (a b : AppCharacter).
        if a.updated_at == b.updated_at
        then leb b.created_at a.created_at
        else leb b.updated_at a.updated_at)
      db.characters)

unfoldable pub get_character : Database → String → Option AppCharacter
get_character db character_id =
    elim (one_where (λ (c : AppCharacter). c.id === character_id) db.characters) [
      | none ↦ none
      | some c ↦ some (read_character c)
    ]

unfoldable pub assignment_id : String → String → String
assignment_id owner other = "assign:" <+> owner <+> ":" <+> other

-- The key and the unique pair of an assignment.
abbrev pub same_assignment : PlannerAssignment → PlannerAssignment → Bool
same_assignment r a =
    a.id === r.id || a.character_id === r.character_id && a.template_id === r.template_id

abbrev pub new_assignment : String → String → String → ℕ → PlannerAssignment
new_assignment id character_id template_id now = record {
  id = id;
  character_id = character_id;
  template_id = template_id;
  enabled = true;
  created_at = now;
}

-- The rows of `INSERT OR IGNORE INTO planner_assignment … SELECT … FROM planner_template`.
unfoldable pub assign_templates :
    String → ℕ → List PlannerTemplate → List PlannerAssignment → List PlannerAssignment
assign_templates id now [] rows = rows
assign_templates id now (t ∷ ts) rows =
    let row = new_assignment (assignment_id id t.id) id t.id now in
    assign_templates id now ts (insert_or_ignore (same_assignment row) row rows)

abbrev pub new_character : CharacterInput → String → ℕ → AppCharacter
new_character input id now = record {
  id = id;
  name = input.name;
  server = input.server;
  class = input.class;
  created_at = now;
  updated_at = now;
}

-- `id` is the new `randomUUID()`, `now` the clock.
unfoldable pub create_character : Database → CharacterInput → String → ℕ → Result Database
create_character db input id now = do
  characters ←
      insert_row (λ (c : AppCharacter). c.id === id) (new_character input id now) db.characters
  ok (record db {
    characters = characters;
    assignments = assign_templates id now db.templates db.assignments;
  })

unfoldable pub update_character : Database → String → CharacterInput → ℕ → Database
update_character db id input now = record db {
  characters =
      update_where (λ (c : AppCharacter). c.id === id)
        (λ c. record c {
          name = input.name;
          server = input.server;
          class = input.class;
          updated_at = now;
        })
        db.characters;
}

-- The rows that belong to the character stay.
unfoldable pub delete_character : Database → String → Database
delete_character db id = record db {
  characters = delete_where (λ (c : AppCharacter). c.id === id) db.characters;
}

unfoldable pub get_setting : Database → String → Option String
get_setting db key = elim (one_where (λ (s : AppSetting). s.key === key) db.app_settings) [
  | none ↦ none
  | some s ↦ some s.value
]

-- `INSERT … ON CONFLICT(key) DO UPDATE`.
unfoldable pub upsert_setting : String → String → List AppSetting → List AppSetting
upsert_setting key value rows =
    if exists_where (λ (s : AppSetting). s.key === key) rows
    then update_where (λ (s : AppSetting). s.key === key) (λ s. record s { value = value }) rows
    else rows ++ record { key = key; value = value } ∷ []

unfoldable pub set_setting : Database → String → Option String → Database
unfolding upsert_setting
set_setting db key none = record db {
  app_settings = delete_where (λ (s : AppSetting). s.key === key) db.app_settings;
}
set_setting db key (some value) = record db {
  app_settings = upsert_setting key value db.app_settings;
}

unfoldable pub get_active_character_id : Database → Option String
get_active_character_id db = get_setting db "activeCharacterId"

unfoldable pub set_active_character_id : Database → Option String → Database
set_active_character_id db character_id = set_setting db "activeCharacterId" character_id
