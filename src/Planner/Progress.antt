-- ===== src/Planner/Progress.antt =====
-- Completions, charges and durations of apps/desktop/src/main/storage/domains/planner.ts.
pub mod Undo
use aion2_hub.Prelude.{
  ℕ, zero, ◌+◌, ◌*◌, ◌/◌, List, [], ◌∷◌, ◌++◌, String, Bool, true, false, not, ◌&&◌, ◌||◌, ◌===◌,
  Option, none, some, if◌then◌else◌, leb, ltb, ◌==◌, min, max, length,
}
use aion2_hub.Prelude.Int.{ℤ}
use aion2_hub.Prelude.Number.{floor_at_zero}
use aion2_hub.Text.{is_empty}
use aion2_hub.Sql.{
  Error, Result, ok, err, ◌>>=◌, bad_request, constraint_failed, select_where, delete_where,
  exists_where, insert_row, order_by, limit,
}
use aion2_hub.Planner.{PlannerCompletion, PlannerChargeUse, PlannerDuration, Database, resolve_date}

abbrev pub is_completion : String → String → String → PlannerCompletion → Bool
is_completion c t p r = r.character_id === c && r.template_id === t && r.period_key === p

pub record CompletionInput : Type 0 where
  pub character_id : String
  pub template_id : String
  pub period_key : String
  pub completed : Bool
  pub at_iso : Option String

-- The identity, and the unique three, of a completion.
abbrev pub same_completion : PlannerCompletion → PlannerCompletion → Bool
same_completion row r =
    r.id === row.id || is_completion row.character_id row.template_id row.period_key r

-- `INSERT OR IGNORE`.
unfoldable pub insert_completion : Database → PlannerCompletion → Result Database
insert_completion db row =
    if exists_where (same_completion row) db.completions
    then ok db
    else ok (record db { completions = db.completions ++ row ∷ [] })

abbrev pub new_completion : CompletionInput → ℕ → String → PlannerCompletion
new_completion input at id = record {
  id = id;
  character_id = input.character_id;
  template_id = input.template_id;
  period_key = input.period_key;
  completed_at = at;
}

-- `at` is the resolved time, `id` the new `randomUUID()`.
unfoldable pub complete : Database → CompletionInput → ℕ → String → Bool → Result Database
unfolding insert_completion
complete db input at id true = insert_completion db (new_completion input at id)
complete db input at id false = ok (record db {
  completions =
      delete_where (is_completion input.character_id input.template_id input.period_key)
        db.completions;
})

-- `parse` stands for the parser of `Date`, `clock` is the time.
unfoldable pub set_planner_completion :
    (String → Option ℕ) → Database → CompletionInput → ℕ → String → Result Database
unfolding complete
set_planner_completion parse db input clock id =
    complete db input (resolve_date parse input.at_iso clock) id input.completed

abbrev pub is_use : String → String → PlannerChargeUse → Bool
is_use c t u = u.character_id === c && u.template_id === t

abbrev pub new_use : String → String → ℕ → String → PlannerChargeUse
new_use character_id template_id used_at id = record {
  id = id;
  character_id = character_id;
  template_id = template_id;
  used_at = used_at;
}

unfoldable pub insert_charge_use : Database → PlannerChargeUse → Result Database
insert_charge_use db row =
    if exists_where (λ (u : PlannerChargeUse). u.id === row.id) db.charge_uses
    then err constraint_failed
    else ok (record db { charge_uses = db.charge_uses ++ row ∷ [] })

unfoldable pub use_charge :
    (String → Option ℕ) → Database → String → String → Option String → ℕ → String → Result Database
unfolding insert_charge_use
use_charge parse db character_id template_id used_at_iso clock id =
    insert_charge_use db
      (new_use character_id template_id (resolve_date parse used_at_iso clock) id)

-- `ORDER BY used_at DESC LIMIT 1`. Of two uses at one time it is the one inserted last, where SQL
-- leaves the choice open.
unfoldable pub latest_use : List PlannerChargeUse → Option PlannerChargeUse
latest_use [] = none
latest_use (u ∷ us) = elim (latest_use us) [
  | none ↦ some u
  | some v ↦ if leb u.used_at v.used_at then some v else some u
]

-- The new database, and the identity of the use that is taken back.
unfoldable pub undo_charge : Database → String → String → Option String × Database
undo_charge db character_id template_id =
    elim (latest_use (select_where (is_use character_id template_id) db.charge_uses)) [
      | none ↦ (none, db)
      | some u ↦ (
        some u.id,
        record db {
          charge_uses = delete_where (λ (v : PlannerChargeUse). v.id === u.id) db.charge_uses;
        },
      )
    ]

pub record DurationInput : Type 0 where
  pub character_id : String
  pub template_id : String
  pub started_at : String
  pub ended_at : String
  -- A finite number `n / (d + 1)`.
  pub seconds : ℤ × ℕ

unfoldable pub insert_duration : Database → PlannerDuration → Result Database
insert_duration db row =
    if exists_where (λ (d : PlannerDuration). d.id === row.id) db.durations
    then err constraint_failed
    else ok (record db { durations = db.durations ++ row ∷ [] })

unfoldable pub add_planner_duration :
    (String → Option ℕ) → Database → DurationInput → String → Result Database
unfolding insert_duration
add_planner_duration parse db input id = elim (parse input.started_at) [
  | none ↦ err bad_request
  | some s ↦ elim (parse input.ended_at) [
    | none ↦ err bad_request
    | some e ↦ insert_duration db (record {
      id = id;
      character_id = input.character_id;
      template_id = some input.template_id;
      started_at = s;
      ended_at = e;
      seconds = max 1 (floor_at_zero input.seconds.0 input.seconds.1);
    })
  ]
]

abbrev pub planner_duration_default_limit : ℕ
planner_duration_default_limit = 50

abbrev pub planner_duration_max_limit : ℕ
planner_duration_max_limit = 200

abbrev pub is_some {ℓ} : {A : Type ℓ} → Option A → Bool
is_some none = false
is_some (some a) = true

unfoldable pub duration_limit : Option (ℤ × ℕ) → ℕ
duration_limit none = max 1 (min planner_duration_max_limit planner_duration_default_limit)
duration_limit (some (n, d)) = max 1 (min planner_duration_max_limit (floor_at_zero n d))

unfoldable pub list_planner_durations : Database → String → Option (ℤ × ℕ) → List PlannerDuration
unfolding duration_limit
list_planner_durations db character_id limit_input = limit (duration_limit limit_input) (
    order_by (λ (a b : PlannerDuration). leb b.ended_at a.ended_at)
      (select_where
        (λ (d : PlannerDuration). d.character_id === character_id && is_some d.template_id)
        db.durations))

unfoldable pub delete_planner_duration : Database → String → String → Database
delete_planner_duration db id character_id = record db {
  durations =
      delete_where (λ (d : PlannerDuration). d.id === id && d.character_id === character_id)
        db.durations;
}
