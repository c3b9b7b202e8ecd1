-- ===== src/BuildScore.antt =====
-- The score of a build and the presets of
-- apps/desktop/src/renderer/src/pages/buildScore/model.ts. Weights and values are whole numbers
-- here, where the code has floating point numbers.
pub mod Presets
pub mod ClassPresets
use aion2_hub.Prelude.{
  ℕ, List, [], ◌∷◌, ◌++◌, map, String, Bool, true, false, ◌===◌, Option, none, some, if◌then◌else◌,
}
use aion2_hub.Prelude.Int.{ℤ, pos, ◌+ℤ◌, ◌*ℤ◌}

pub data BuildScoreUnit : Type 0 where
  flat percent : BuildScoreUnit

pub record BuildScoreStat : Type 0 where
  pub id : String
  pub label : String
  pub unit : BuildScoreUnit
  pub enabled : Bool
  pub weight : ℤ

-- A `Record<string, number>`.
pub record BuildScoreSet : Type 0 where
  pub name : String
  pub values : List (String × ℤ)

pub record BuildScoreState : Type 0 where
  pub updated_at : String
  pub stats : List BuildScoreStat
  pub set_a : BuildScoreSet
  pub set_b : BuildScoreSet

-- `values[id] ?? 0`.
unfoldable pub value_of : List (String × ℤ) → String → ℤ
value_of [] id = pos 0
value_of ((k, v) ∷ rest) id = if k === id then v else value_of rest id

pub data Which : Type 0 where
  a b : Which

-- The loop of `computeScore`, with its `sum`.
unfoldable pub score_loop : List (String × ℤ) → List BuildScoreStat → ℤ → ℤ
score_loop values [] sum = sum
score_loop values (s ∷ rest) sum =
    if s.enabled
    then score_loop values rest (sum +ℤ s.weight *ℤ value_of values s.id)
    else score_loop values rest sum

abbrev pub values_of : BuildScoreState → Which → List (String × ℤ)
values_of state Which.a = state.set_a.values
values_of state Which.b = state.set_b.values

unfoldable pub compute_score : BuildScoreState → Which → ℤ
unfolding score_loop value_of
compute_score state which = score_loop (values_of state which) state.stats (pos 0)

-- `Map.get`, `set` and `delete` on the entries of a map of stats by their id, in the order in
-- which the keys were first set.
unfoldable pub map_get : List BuildScoreStat → String → Option BuildScoreStat
map_get [] id = none
map_get (s ∷ rest) id = if s.id === id then some s else map_get rest id

unfoldable pub map_set : List BuildScoreStat → BuildScoreStat → List BuildScoreStat
map_set [] s = s ∷ []
map_set (t ∷ rest) s = let kept = t ∷ map_set rest s in if t.id === s.id then s ∷ rest else kept

unfoldable pub map_delete : List BuildScoreStat → String → List BuildScoreStat
map_delete [] id = []
map_delete (s ∷ rest) id = let kept = s ∷ map_delete rest id in if s.id === id then rest else kept

-- `new Map(stats.map((s) => [s.id, s]))`, onto the entries that are there.
unfoldable pub map_of : List BuildScoreStat → List BuildScoreStat → List BuildScoreStat
unfolding map_set
map_of [] entries = entries
map_of (s ∷ rest) entries = map_of rest (map_set entries s)

-- `state.stats.map(…)` with the entries that are left of `presetById`: the stats so far, and what
-- is left at the end.
unfoldable pub user_loop :
    List BuildScoreStat → List BuildScoreStat → List BuildScoreStat × List BuildScoreStat
unfolding map_get map_delete
user_loop [] left = ([], left)
user_loop (s ∷ rest) left = elim (map_get left s.id) [
  | some ps ↦ let (done, last) = user_loop rest (map_delete left s.id) in (ps ∷ done, last)
  | none ↦ let (done, last) = user_loop rest left in (record s { enabled = false } ∷ done, last)
]

unfoldable pub apply_user_preset : BuildScoreState → List BuildScoreStat → BuildScoreState
unfolding user_loop map_of
apply_user_preset state preset =
    let (done, last) = user_loop state.stats (map_of preset []) in
    record state { stats = done ++ last }

pub record CatalogItem : Type 0 where
  pub id : String
  pub label : String
  pub unit : BuildScoreUnit

pub record ClassStat : Type 0 where
  pub id : String
  pub enabled : Bool
  pub weight : ℤ

-- The entry of the catalog, the last one of an id.
unfoldable pub catalog_get : List CatalogItem → String → Option CatalogItem
catalog_get [] id = none
catalog_get (c ∷ rest) id = elim (catalog_get rest id) [
  | some d ↦ some d
  | none ↦ if c.id === id then some c else none
]

-- `cat?.label ?? existing?.label ?? p.id`, and so for the unit.
unfoldable pub merged_stat : Option CatalogItem → Option BuildScoreStat → ClassStat → BuildScoreStat
merged_stat (some c) o p = record {
  id = p.id;
  label = c.label;
  unit = c.unit;
  enabled = p.enabled;
  weight = p.weight;
}
merged_stat none (some s) p = record {
  id = p.id;
  label = s.label;
  unit = s.unit;
  enabled = p.enabled;
  weight = p.weight;
}
merged_stat none none p = record {
  id = p.id;
  label = p.id;
  unit = BuildScoreUnit.flat;
  enabled = p.enabled;
  weight = p.weight;
}

unfoldable pub class_loop :
    List CatalogItem → List ClassStat → List BuildScoreStat → List BuildScoreStat
unfolding catalog_get merged_stat map_get map_set
class_loop catalog [] stats = stats
class_loop catalog (p ∷ rest) stats =
    class_loop catalog rest
      (map_set stats (merged_stat (catalog_get catalog p.id) (map_get stats p.id) p))

-- `catalog` is `BUILD_SCORE_CATALOG`.
unfoldable pub apply_class_preset :
    List CatalogItem → BuildScoreState → List ClassStat → BuildScoreState
unfolding class_loop map_of
apply_class_preset catalog state preset = record state {
  stats = class_loop catalog preset (map_of state.stats []);
}
