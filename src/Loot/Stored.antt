-- ===== src/Loot/Stored.antt =====
-- A new run is stored as a whole or not at all: `createLootRun` with its transaction, and
-- `getLootRun`, of apps/desktop/src/main/storage/domains/loot.ts.
use text.Mathlib.TextPositions.{compare_refl}
use aion2_hub.Prelude.{
  ℕ, ◌≡◌, refl, inl, inr, String, true, false, ◌===◌, ===_refl, Bool-cases, List, [], map, Option,
  none, some,
}
use aion2_hub.Text.{trim, is_empty}
use aion2_hub.Sql.{ok, err, exists_where, one_where, select_where}
use aion2_hub.Sql.Laws.{insert_row_cases, one_where-snoc}
use aion2_hub.Sql.Appends.{select-none, order_by-same}
use aion2_hub.Planner.{AppCharacter}
use aion2_hub.Economy.{text_leb}
use aion2_hub.Loot.{
  LootRun, LootRunDrop, LootRunCost, LootDb, drop_of, cost_of, LootRunDetails, details_of,
  get_loot_run,
}
use aion2_hub.Loot.Runs.{
  RunInput, RunIds, Outcome, commit_or_rollback, insert_run, new_run, run_statements, transaction,
  create_for, create_loot_run,
}
use aion2_hub.Loot.Created.{
  DropView, drop_view, CostView, cost_view, kept_drops, kept_costs, AfterOk, AfterOk-then,
  AfterOk-map, Holds, add_drops-Holds, add_costs-Holds,
}

-- What the run that is there gives back.
pub record Reads (run : LootRun) (ds : List DropView) (cs : List CostView) (db : LootDb)
    : Type 0 where
  pub details : LootRunDetails
  pub found : get_loot_run db run.id ≡ some details
  pub same_run : details.run ≡ run
  pub same_drops : map drop_view details.drops ≡ ds
  pub same_costs : map cost_view details.costs ≡ cs

text_leb_same : (now a b : String) → a ≡ now → b ≡ now → text_leb a b ≡ true
unfolding text_leb
text_leb_same now a b e f = rw (e, f, compare_refl now) refl

Holds-Reads :
    (now : String) (row : LootRun) (ds : List DropView) (cs : List CostView) (db : LootDb)
    → Holds row.id now row ds cs db
    → Reads row ds cs db
unfolding get_loot_run
Holds-Reads now row ds cs db h =
    let drops =
      order_by-same (λ (a b : LootRunDrop). text_leb a.created_at b.created_at)
        (λ d. d.created_at ≡ now) (select_where (drop_of row.id) db.drops)
        (λ a b. text_leb_same now a.created_at b.created_at) h.drop_times in
    let costs =
      order_by-same (λ (a b : LootRunCost). text_leb a.created_at b.created_at)
        (λ c. c.created_at ≡ now) (select_where (cost_of row.id) db.costs)
        (λ a b. text_leb_same now a.created_at b.created_at) h.cost_times in
    record {
      details = details_of db row;
      found = rw (h.run_there, get_loot_run) refl;
      same_run = refl;
      same_drops = rw drops h.drop_views;
      same_costs = rw costs h.cost_views;
    }

module _ (db : LootDb) (run : LootRun) (no_drops : exists_where (drop_of run.id) db.drops ≡ false)
    (no_costs : exists_where (cost_of run.id) db.costs ≡ false) where
  insert_run-Holds : AfterOk (Holds run.id run.created_at run [] []) (insert_run run db)
  unfolding insert_run
  insert_run-Holds = elim (insert_row_cases (λ (r : LootRun). r.id === run.id) run db.runs) [
    | inl e ↦ rw e tt
    | inr (fresh, e) ↦
        let drops = select-none (drop_of run.id) db.drops no_drops in
        let costs = select-none (cost_of run.id) db.costs no_costs in
        rw e (record {
          run_there = one_where-snoc _ db.runs run fresh (===_refl run.id);
          drop_times = rw drops tt;
          drop_views = rw drops refl;
          cost_times = rw costs tt;
          cost_views = rw costs refl;
        })
  ]

-- What `createLootRun` may leave: the database as it was, if it throws, and else the new run with
-- the entries that count.
abbrev pub IsWhole : (String → Option ℕ) → RunIds → String → RunInput → LootDb → Outcome → Type 0
IsWhole parse ids now input before (err e, db) = db ≡ before
IsWhole parse ids now input before (ok u, db) =
    (c : AppCharacter) × (one_where (λ (c : AppCharacter). c.id === input.character_id)
        before.planner.characters
      ≡ some c)
    × Reads (new_run parse input c.server ids.run now) (kept_drops input.drops)
        (kept_costs input.costs) db

rolled_back :
    (parse : String → Option ℕ) (ids : RunIds) (now : String) (input : RunInput) (db : LootDb)
    (c : AppCharacter) (o : Outcome)
    → one_where (λ (c : AppCharacter). c.id === input.character_id) db.planner.characters ≡ some c
    → AfterOk
        (Reads
          (new_run parse input c.server ids.run now)
          (kept_drops input.drops)
          (kept_costs input.costs))
        o
    → IsWhole parse ids now input db (commit_or_rollback db o)
rolled_back parse ids now input db c (ok u, db') e h = (c, e, h)
rolled_back parse ids now input db c (err x, db') e h = refl

run_statements-Reads :
    (parse : String → Option ℕ) (ids : RunIds) (now : String) (input : RunInput)
    (server : Option String) (db : LootDb)
    → exists_where (drop_of ids.run) db.drops ≡ false
    → exists_where (cost_of ids.run) db.costs ≡ false
    → AfterOk
        (Reads
          (new_run parse input server ids.run now)
          (kept_drops input.drops)
          (kept_costs input.costs))
        (run_statements parse ids now input server db)
unfolding run_statements new_run
run_statements-Reads parse ids now input server db no_drops no_costs =
    let run = new_run parse input server ids.run now in
    AfterOk-then (Holds ids.run now run (kept_drops input.drops) []) _ _ _
      (AfterOk-then (Holds ids.run now run [] []) _ _ _ (insert_run-Holds db run no_drops no_costs)
        (λ db' h. add_drops-Holds ids.run now run ids.drop 0 input.drops [] [] db' h))
      (λ db' h.
        AfterOk-map (Holds ids.run now run (kept_drops input.drops) (kept_costs input.costs)) _ _
          (λ db'' h'. Holds-Reads now run (kept_drops input.drops) (kept_costs input.costs) db'' h')
          (add_costs-Holds ids.run now run ids.cost 0 input.costs (kept_drops input.drops) [] db'
            h))

create_for-IsWhole :
    (parse : String → Option ℕ) (ids : RunIds) (now : String) (input : RunInput) (db : LootDb)
    (o : Option AppCharacter)
    → one_where (λ (c : AppCharacter). c.id === input.character_id) db.planner.characters ≡ o
    → exists_where (drop_of ids.run) db.drops ≡ false
    → exists_where (cost_of ids.run) db.costs ≡ false
    → IsWhole parse ids now input db (create_for parse ids now input o db)
unfolding create_for transaction
create_for-IsWhole parse ids now input db none e no_drops no_costs = refl
create_for-IsWhole parse ids now input db (some c) e no_drops no_costs =
    rolled_back parse ids now input db c (run_statements parse ids now input c.server db) e
      (run_statements-Reads parse ids now input c.server db no_drops no_costs)

-- A run whose new identity no drop and no cost refers to is stored as a whole or not at all. If
-- the call throws, at whichever statement, the database is as it was. If it does not, the
-- character is there and the run is read back, for the server of the character, with exactly the
-- drops and the costs that count: those with a kind, a name that is not blank where there is one
-- to be, and an amount whose whole part is above zero, in their order, with trimmed names and
-- notes.
pub create_loot_run-IsWhole :
    (parse : String → Option ℕ) (ids : RunIds) (now : String) (input : RunInput) (db : LootDb)
    → exists_where (drop_of ids.run) db.drops ≡ false
    → exists_where (cost_of ids.run) db.costs ≡ false
    → IsWhole parse ids now input db (create_loot_run parse ids now input db)
unfolding create_loot_run
create_loot_run-IsWhole parse ids now input db no_drops no_costs =
    elim (Bool-cases (is_empty input.character_id)) [
      | inl e ↦ rw e refl
      | inr e ↦ elim (Bool-cases (is_empty (trim input.content))) [
        | inl f ↦ rw (e, f) refl
        | inr f ↦ rw (e, f) (create_for-IsWhole parse ids now input db _ refl no_drops no_costs)
      ]
    ]
