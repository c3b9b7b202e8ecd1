-- ===== src/Planner/Templates.antt =====
-- The templates of apps/desktop/src/main/storage/domains/planner.ts, each assigned to every
-- character when it is made.
use Prim.Native.String.{compare}
use text.Mathlib.Text.{is_le}
use aion2_hub.Prelude.{ℕ, List, [], ◌∷◌, String, Bool, ◌===◌, Option, none, some, if◌then◌else◌}
use aion2_hub.Prelude.Int.{ℤ}
use aion2_hub.Prelude.Number.{floor_at_zero}
use aion2_hub.Sql.{
  Result, ok, ◌>>=◌, delete_where, update_where, insert_row, insert_or_ignore, order_by,
}
use aion2_hub.Planner.{AppCharacter, TemplateType, PlannerTemplate, PlannerAssignment, Database}
use aion2_hub.Planner.Characters.{assignment_id, same_assignment, new_assignment}

pub record TemplateInput : Type 0 where
  pub title : String
  pub type : TemplateType
  -- A finite number `n / (d + 1)`, where it is given.
  pub estimate_minutes : Option (ℤ × ℕ)
  pub recharge_hours : Option ℕ
  pub max_stacks : Option ℕ

-- `Math.max(0, Math.floor(input.estimateMinutes ?? 0))`.
unfoldable pub estimate_of : Option (ℤ × ℕ) → ℕ
estimate_of none = 0
estimate_of (some (n, d)) = floor_at_zero n d

-- What only a template of type CHARGE keeps.
unfoldable pub charge_only : TemplateType → Option ℕ → Option ℕ
charge_only TemplateType.charge o = o
charge_only _ o = none

unfoldable pub new_template : TemplateInput → String → ℕ → PlannerTemplate
unfolding estimate_of charge_only
new_template input id now = record {
  id = id;
  title = input.title;
  type = input.type;
  estimate_minutes = estimate_of input.estimate_minutes;
  recharge_hours = charge_only input.type input.recharge_hours;
  max_stacks = charge_only input.type input.max_stacks;
  created_at = now;
  updated_at = now;
}

-- The rows of `INSERT OR IGNORE INTO planner_assignment … SELECT … FROM app_character`.
unfoldable pub assign_characters :
    String → ℕ → List AppCharacter → List PlannerAssignment → List PlannerAssignment
assign_characters id now [] rows = rows
assign_characters id now (c ∷ cs) rows =
    let row = new_assignment (assignment_id id c.id) c.id id now in
    assign_characters id now cs (insert_or_ignore (same_assignment row) row rows)

unfoldable pub create_planner_template : Database → TemplateInput → String → ℕ → Result Database
create_planner_template db input id now = do
  templates ←
      insert_row (λ (t : PlannerTemplate). t.id === id) (new_template input id now) db.templates
  ok (record db {
    templates = templates;
    assignments = assign_characters id now db.characters db.assignments;
  })

unfoldable pub update_planner_template : Database → String → TemplateInput → ℕ → Database
unfolding new_template
update_planner_template db id input now = record db {
  templates =
      update_where (λ (t : PlannerTemplate). t.id === id)
        (λ t. record (new_template input t.id now) { created_at = t.created_at }) db.templates;
}

-- The rows that belong to the template stay.
unfoldable pub delete_planner_template : Database → String → Database
delete_planner_template db id = record db {
  templates = delete_where (λ (t : PlannerTemplate). t.id === id) db.templates;
}

-- `DELETE FROM planner_template;`
unfoldable pub delete_all_templates : Database → Database
delete_all_templates db = record db { templates = [] }

abbrev pub type_text : TemplateType → String
type_text TemplateType.daily = "DAILY"
type_text TemplateType.weekly = "WEEKLY"
type_text TemplateType.charge = "CHARGE"

-- `ORDER BY type ASC, title ASC`.
unfoldable pub template_before : PlannerTemplate → PlannerTemplate → Bool
template_before a b =
    if type_text a.type === type_text b.type
    then is_le (compare a.title b.title)
    else is_le (compare (type_text a.type) (type_text b.type))

unfoldable pub list_planner_templates : Database → List PlannerTemplate
unfolding template_before
list_planner_templates db = order_by template_before db.templates
