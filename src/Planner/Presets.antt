-- ===== src/Planner/Presets.antt =====
-- `applyPlannerPreset` of apps/desktop/src/main/storage/domains/planner.ts.
pub mod Counts
use aion2_hub.Prelude.{
  ℕ, ◌+◌, List, [], ◌∷◌, ◌++◌, String, Bool, true, false, ◌||◌, ◌===◌, Option, none, some,
  if◌then◌else◌,
}
use aion2_hub.Prelude.Int.{ℤ, pos}
use aion2_hub.Text.{◌<+>◌, trim, is_empty}
use aion2_hub.Sql.{Result, ok, err, ◌>>=◌}
use aion2_hub.Planner.{TemplateType, PlannerTemplate, Database}
use aion2_hub.Planner.Templates.{
  TemplateInput, type_text, estimate_of, charge_only, create_planner_template, delete_all_templates,
}

pub data Mode : Type 0 where
  merge replace : Mode

-- An entry of the preset as it comes in: `none` for a field of another type than it should have,
-- or for a text that is no template type.
pub record RawTemplate : Type 0 where
  pub title : Option String
  pub type : Option TemplateType
  pub estimate_minutes : Option (ℤ × ℕ)
  pub recharge_hours : Option ℕ
  pub max_stacks : Option ℕ

unfoldable pub normalize_fields : RawTemplate → String → Option TemplateType → Option TemplateInput
unfolding estimate_of charge_only
normalize_fields raw title none = none
normalize_fields raw title (some type) =
    if is_empty title
    then none
    else some (record {
      title = title;
      type = type;
      estimate_minutes = some (pos (estimate_of raw.estimate_minutes), 0);
      recharge_hours = charge_only type raw.recharge_hours;
      max_stacks = charge_only type raw.max_stacks;
    })

-- `none` for an entry that is skipped before it is counted; an entry that is no object is `none`.
unfoldable pub normalize_template : Option RawTemplate → Option TemplateInput
unfolding normalize_fields
normalize_template none = none
normalize_template (some raw) =
    normalize_fields raw (elim raw.title [ none ↦ String.[] | some t ↦ trim t ]) raw.type

unfoldable pub normalized_templates : List (Option RawTemplate) → List TemplateInput
normalized_templates [] = []
normalized_templates (t ∷ ts) = elim (normalize_template t) [
  | none ↦ normalized_templates ts
  | some n ↦ n ∷ normalized_templates ts
]

pub record PresetCounts : Type 0 where
  pub created : ℕ
  pub skipped : ℕ

unfoldable pub has_key : String → List String → Bool
has_key key [] = false
has_key key (k ∷ ks) = k === key || has_key key ks

-- `lower` is `toLowerCase`.
module _ (lower : String → String) where
  unfoldable pub make_key : TemplateType → String → String
  make_key type title = type_text type <+> ":" <+> lower (trim title)

  unfoldable pub existing_keys : List PlannerTemplate → List String
  existing_keys [] = []
  existing_keys (t ∷ ts) = make_key t.type t.title ∷ existing_keys ts

abbrev pub prepared : Mode → Database → Database
prepared merge db = db
prepared replace db = delete_all_templates db

-- `fresh` numbers the texts of `randomUUID`, `clock` the times.
module _ (lower : String → String) (fresh : ℕ → String) (clock : ℕ → ℕ) where
  unfoldable pub apply_loop :
      List TemplateInput → List String → PresetCounts → Database → Result (PresetCounts × Database)
  apply_loop [] keys n db = ok (n, db)
  apply_loop (t ∷ ts) keys n db =
      let key = make_key lower t.type t.title in
      let skip = apply_loop ts keys (record n { skipped = n.skipped + 1 }) db in
      let create = create_planner_template db t (fresh n.created) (clock n.created) >>= λ db'.
      apply_loop ts (key ∷ keys) (record n { created = n.created + 1 }) db' in
      if has_key key keys then skip else create

  unfoldable pub apply_planner_preset :
      Database → Mode → List (Option RawTemplate) → Result (PresetCounts × Database)
  apply_planner_preset db mode templates =
      let db' = prepared mode db in
      apply_loop (normalized_templates templates) (existing_keys lower db'.templates)
        (record { created = 0; skipped = 0 }) db'
