-- ===== src/Planner/Overview.antt =====
-- `getPlannerOverview` of
-- apps/desktop/src/main/storage/domains/planner.ts.
pub mod Charges
pub mod Checklist
use aion2_hub.Prelude.{
  ℕ, ◌+◌, ◌-◌, ◌*◌, ◌/◌, List, [], ◌∷◌, ◌++◌, String, Bool, true, false, not, ◌&&◌, ◌||◌, ◌===◌,
  Option, none, some, if◌then◌else◌, leb, ltb, ◌==◌, length,
}
use aion2_hub.Prelude.Int.{ℤ}
use aion2_hub.Sql.{
  Error, Result, ok, err, ◌>>=◌, character_not_found, select_where, exists_where, one_where,
  order_by,
}
use aion2_hub.Prelude.Number.{finite}
use aion2_hub.Period.{daily_period_key, weekly_period_key}
use aion2_hub.Planner.{
  AppCharacter, TemplateType, PlannerTemplate, PlannerAssignment, PlannerCompletion,
  PlannerChargeUse, PlannerDuration, Database, resolve_date,
}
use aion2_hub.Planner.Characters.{get_character}
use aion2_hub.Planner.Settings.{PlannerSettings, get_planner_settings_effective}
use aion2_hub.Planner.Templates.{template_before}
use aion2_hub.Planner.Progress.{is_use, is_some}

pub record PlannerChecklistItem : Type 0 where
  pub template_id : String
  pub title : String
  pub type : TemplateType
  pub estimate_minutes : ℕ
  pub completed : Bool

pub record PlannerChargeItem : Type 0 where
  pub template_id : String
  pub title : String
  pub recharge_hours : ℕ
  pub max_stacks : ℕ
  pub used_count_in_window : ℕ
  pub available : ℕ
  pub next_recharge_at : Option ℕ

pub record PlannerOverview : Type 0 where
  pub now : ℕ
  pub daily_key : String
  pub weekly_key : String
  pub settings : PlannerSettings
  pub character : AppCharacter
  pub daily : List PlannerChecklistItem
  pub weekly : List PlannerChecklistItem
  pub charges : List PlannerChargeItem

-- `doneDaily.has(templateId)` and `doneWeekly.has(templateId)`, for the key of each.
unfoldable pub is_done : Database → String → String → String → Bool
is_done db character_id key template_id =
    exists_where
      (λ (r : PlannerCompletion).
        (r.character_id === character_id && r.period_key === key) && r.template_id === template_id)
      db.completions

-- `JOIN planner_template … WHERE a.character_id = $c AND a.enabled = 1 ORDER BY type, title`: each
-- enabled assignment of the character with its template.
unfoldable pub joined : List PlannerTemplate → List PlannerAssignment → List PlannerTemplate
joined templates [] = []
joined templates (a ∷ rest) =
    select_where (λ (t : PlannerTemplate). t.id === a.template_id) templates
    ++ joined templates rest

unfoldable pub assigned_templates : Database → String → List PlannerTemplate
unfolding joined template_before
assigned_templates db character_id = order_by template_before (
    joined db.templates (
      select_where (λ (a : PlannerAssignment). a.character_id === character_id && a.enabled)
        db.assignments))

abbrev pub or_zero : Option ℕ → ℕ
or_zero none = 0
or_zero (some n) = n

abbrev pub window_ms : ℕ → ℕ
window_ms recharge_hours = recharge_hours * 3600000

-- `available >= maxStacks || useRows.length === 0` of the uses in the window, the first one first.
unfoldable pub next_recharge : ℕ → ℕ → ℕ → List PlannerChargeUse → Option ℕ
next_recharge available max_stacks window [] = none
next_recharge available max_stacks window (u ∷ us) =
    if leb max_stacks available then none else some (u.used_at + window)

unfoldable pub uses_in_window : Database → String → String → ℕ → ℕ → List PlannerChargeUse
uses_in_window db character_id template_id window now =
    order_by (λ (a b : PlannerChargeUse). leb a.used_at b.used_at)
      (select_where
        (λ (u : PlannerChargeUse).
          is_use character_id template_id u && ltb now (u.used_at + window))
        db.charge_uses)

unfoldable pub charge_item : Database → String → ℕ → PlannerTemplate → PlannerChargeItem
unfolding next_recharge
charge_item db character_id now t =
    let recharge_hours = or_zero t.recharge_hours in
    let max_stacks = or_zero t.max_stacks in
    let use_rows = uses_in_window db character_id t.id (window_ms recharge_hours) now in
    let available = max_stacks - length use_rows in
    record {
      template_id = t.id;
      title = t.title;
      recharge_hours = recharge_hours;
      max_stacks = max_stacks;
      used_count_in_window = length use_rows;
      available = available;
      next_recharge_at = next_recharge available max_stacks (window_ms recharge_hours) use_rows;
    }

unfoldable pub checklist_item : PlannerTemplate → Bool → PlannerChecklistItem
checklist_item t completed = record {
  template_id = t.id;
  title = t.title;
  type = t.type;
  estimate_minutes = t.estimate_minutes;
  completed = completed;
}

pub record Sorted : Type 0 where
  pub daily : List PlannerChecklistItem
  pub weekly : List PlannerChecklistItem
  pub charges : List PlannerChargeItem

-- What the loop over the rows does with one of them, with what the later rows give.
unfoldable pub add_row :
    Database → String → String → String → ℕ → PlannerTemplate → TemplateType → Sorted → Sorted
unfolding checklist_item is_done
add_row db c d w now t TemplateType.daily s = record s {
  daily = checklist_item t (is_done db c d t.id) ∷ s.daily;
}
add_row db c d w now t TemplateType.weekly s = record s {
  weekly = checklist_item t (is_done db c w t.id) ∷ s.weekly;
}
add_row db c d w now t TemplateType.charge s = record s {
  charges = charge_item db c now t ∷ s.charges;
}

unfoldable pub sort_rows : Database → String → String → String → ℕ → List PlannerTemplate → Sorted
unfolding add_row
sort_rows db c d w now [] = record { daily = []; weekly = []; charges = [] }
sort_rows db c d w now (t ∷ ts) = add_row db c d w now t t.type (sort_rows db c d w now ts)

-- `parse` stands for the parser of `Date`, `offset` for the milliseconds by which local time is
-- ahead of UTC. The database changes where the default settings are first written.
unfoldable pub overview_of :
    ℕ → Database → String → ℕ → ℕ → AppCharacter → PlannerOverview × Database
overview_of offset db character_id now clock character =
    let (settings, scope, db') = get_planner_settings_effective db character.server clock in
    let local = now + offset in
    let daily_key = daily_period_key local settings.daily_reset_hhmm in
    let weekly_key =
      weekly_period_key local settings.daily_reset_hhmm (finite settings.weekly_reset_day 0) in
    let rows =
      sort_rows db' character_id daily_key weekly_key now (assigned_templates db' character_id) in
    (
      record {
        now = now;
        daily_key = daily_key;
        weekly_key = weekly_key;
        settings = settings;
        character = character;
        daily = rows.daily;
        weekly = rows.weekly;
        charges = rows.charges;
      },
      db',
    )

unfoldable pub get_planner_overview :
    (String → Option ℕ)
    → ℕ
    → Database
    → String
    → Option String
    → ℕ
    → Result (PlannerOverview × Database)
unfolding overview_of
get_planner_overview parse offset db character_id now_iso clock =
    elim (get_character db character_id) [
      | none ↦ err character_not_found
      | some character ↦
          ok (overview_of offset db character_id (resolve_date parse now_iso clock) clock character)
    ]
