-- ===== src/BuildScore/ClassPresets.antt =====
-- What a preset of a class sets: `applyClassPreset` of
-- apps/desktop/src/renderer/src/pages/buildScore/model.ts.
use aion2_hub.Prelude.{
  ◌≡◌, refl, ap, sym, subst, ◌∙◌, inl, inr, List, [], ◌∷◌, String, ◌===◌, ===_iff, Bool, true,
  false, Bool-cases, Option, none, some, Option-cases, if◌then◌else◌, arith,
}
use aion2_hub.Prelude.Int.{ℤ}
use aion2_hub.Sql.{exists_where, one_where}
use aion2_hub.Sql.Sums.{IsDistinct}
use aion2_hub.BuildScore.{
  BuildScoreStat, BuildScoreState, CatalogItem, ClassStat, map_get, map_set, map_of, catalog_get,
  merged_stat, class_loop, apply_class_preset,
}

-- A key reads what was last set under it.
map_get-set :
    (m : List BuildScoreStat) (s : BuildScoreStat) (id : String)
    → map_get (map_set m s) id ≡ (if s.id === id then some s else map_get m id)
unfolding map_get map_set
map_get-set [] s id = refl
map_get-set (t ∷ m) s id = elim (Bool-cases (t.id === s.id)) [
  | inl e ↦ rw e (ground (arith, e, ===_iff t.id id, ===_iff s.id id, ===_iff t.id s.id))
  | inr e ↦
      rw e
        (ground (arith, map_get-set m s id, e, ===_iff t.id id, ===_iff s.id id, ===_iff t.id s.id))
]

-- The preset's entry of an id, the last one.
unfoldable pub last_of : List ClassStat → String → Option ClassStat
last_of [] id = none
last_of (p ∷ rest) id = elim (last_of rest id) [
  | some q ↦ some q
  | none ↦ if p.id === id then some p else none
]

-- Whether a stat counts, and how much.
abbrev pub counts : Option BuildScoreStat → Option (Bool × ℤ)
counts none = none
counts (some s) = some (s.enabled, s.weight)

abbrev pub set_to : Option ClassStat → Option BuildScoreStat → Option (Bool × ℤ)
set_to none o = counts o
set_to (some p) o = some (p.enabled, p.weight)

merged_stat-id :
    (c : Option CatalogItem) (o : Option BuildScoreStat) (p : ClassStat)
    → (merged_stat c o p).id ≡ p.id
unfolding merged_stat
merged_stat-id (some c) o p = refl
merged_stat-id none (some s) p = refl
merged_stat-id none none p = refl

merged_stat-counts :
    (c : Option CatalogItem) (o : Option BuildScoreStat) (p : ClassStat)
    → counts (some (merged_stat c o p)) ≡ some (p.enabled, p.weight)
unfolding merged_stat
merged_stat-counts (some c) o p = refl
merged_stat-counts none (some s) p = refl
merged_stat-counts none none p = refl

counts_if :
    (b : Bool) (s : BuildScoreStat) (o : Option BuildScoreStat) (p : ClassStat)
    → counts (some s) ≡ some (p.enabled, p.weight)
    → counts (if b then some s else o) ≡ set_to (if b then some p else none) o
counts_if true s o p e = e
counts_if false s o p e = refl

class_loop-counts :
    (catalog : List CatalogItem) (preset : List ClassStat) (m : List BuildScoreStat) (id : String)
    → counts (map_get (class_loop catalog preset m) id) ≡ set_to (last_of preset id) (map_get m id)
unfolding class_loop last_of
class_loop-counts catalog [] m id = refl
class_loop-counts catalog (p ∷ rest) m id =
    let s = merged_stat (catalog_get catalog p.id) (map_get m p.id) p in
    let ih = class_loop-counts catalog rest (map_set m s) id in
    elim (Option-cases (last_of rest id)) [
      | inr (q, e) ↦ ih ∙ rw (e, last_of) refl
      | inl e ↦
          ih
          ∙ rw (e, map_get-set m s id, merged_stat-id (catalog_get catalog p.id) (map_get m p.id) p)
              (counts_if (p.id === id) s (map_get m id) p
                (merged_stat-counts (catalog_get catalog p.id) (map_get m p.id) p))
    ]

-- The stat of an id, the first one.
abbrev pub stat_of : List BuildScoreStat → String → Option BuildScoreStat
stat_of stats id = one_where (λ (s : BuildScoreStat). s.id === id) stats

abbrev stat_id : BuildScoreStat → String
stat_id s = s.id

map_get-stat_of : (stats : List BuildScoreStat) (id : String) → map_get stats id ≡ stat_of stats id
unfolding map_get one_where
map_get-stat_of [] id = refl
map_get-stat_of (s ∷ stats) id = rw (map_get-stat_of stats id) refl

stat_of-absent :
    (stats : List BuildScoreStat) (id : String)
    → exists_where (λ (s : BuildScoreStat). s.id === id) stats ≡ false
    → stat_of stats id ≡ none
unfolding one_where exists_where
stat_of-absent [] id e = refl
stat_of-absent (s ∷ stats) id e = ground (arith, stat_of-absent stats id, e)

abbrev stat_or : Option BuildScoreStat → Option BuildScoreStat → Option BuildScoreStat
stat_or none o = o
stat_or (some s) o = some s

-- The map of stats with different ids has each of them.
map_of-get :
    (stats m : List BuildScoreStat) (id : String)
    → IsDistinct stat_id stats
    → map_get (map_of stats m) id ≡ stat_or (stat_of stats id) (map_get m id)
unfolding map_of one_where
map_of-get [] m id d = refl
map_of-get (s ∷ stats) m id d = elim (Bool-cases (s.id === id)) [
  | inl e ↦
      let absent = stat_of-absent stats id (
        subst (λ k. exists_where (λ (t : BuildScoreStat). t.id === k) stats ≡ false)
          ((===_iff s.id id).0 e) d.0) in
      map_of-get stats (map_set m s) id d.1 ∙ rw (e, absent) (map_get-set m s id ∙ rw e refl)
  | inr e ↦ map_of-get stats (map_set m s) id d.1 ∙ rw (map_get-set m s id, e) refl
]

stat_or-none : (o : Option BuildScoreStat) → stat_or o none ≡ o
stat_or-none none = refl
stat_or-none (some s) = refl

-- Where no two stats of the state have the same id: after the preset of a class each stat that is
-- in it counts as its last entry there says, and each other stat as it did in the state before.
pub apply_class_preset-counts :
    (catalog : List CatalogItem) (state : BuildScoreState) (preset : List ClassStat) (id : String)
    → IsDistinct (λ (s : BuildScoreStat). s.id) state.stats
    → counts (stat_of (apply_class_preset catalog state preset).stats id)
      ≡ set_to (last_of preset id) (stat_of state.stats id)
unfolding apply_class_preset map_get
apply_class_preset-counts catalog state preset id d =
    ap counts (sym (map_get-stat_of (class_loop catalog preset (map_of state.stats [])) id))
    ∙ class_loop-counts catalog preset (map_of state.stats []) id
    ∙ ap (set_to (last_of preset id)) (map_of-get state.stats [] id d ∙ stat_or-none _)
