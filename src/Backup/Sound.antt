-- ===== src/Backup/Sound.antt =====
-- What `importUserBackup` of apps/desktop/src/main/storage/domains/backup.ts reads of a backup
-- refers to nothing outside it.
use aion2_hub.Prelude.{
  ◌≡◌, refl, ap, String, ◌===◌, Bool, true, not, ◌||◌, Option, none, some, List, [], ◌∷◌, map,
  arith,
}
use aion2_hub.Prelude.Sort.{All}
use aion2_hub.Text.{is_empty}
use aion2_hub.Sql.{exists_where}
use aion2_hub.Sql.Laws.{All-map, All-select}
use aion2_hub.Planner.{
  AppCharacter, PlannerTemplate, PlannerAssignment, PlannerCompletion, PlannerChargeUse,
  PlannerDuration,
}
use aion2_hub.Economy.{EconomyItem, EconomyPrice, EconomyPriceWatch}
use aion2_hub.Loot.{LootRun, LootRunDrop, LootRunCost}
use aion2_hub.BuildStorage.{ScoreRow, PresetRow}
use aion2_hub.Json.{Json}
use aion2_hub.Backup.{World, is_member}
use aion2_hub.Backup.Entries.{unknown_template}
use aion2_hub.Backup.Rows.{BackupRows, read_backup}
use aion2_hub.Backup.Known.{
  member_or_null, read_prices-known, read_watches-known, read_runs-known, read_drops-known,
  read_costs-known, read_assignments-known, read_completions-known, read_charge_uses-known,
  read_durations-known,
}

-- Does a row have this identity?
abbrev pub HasId : {A : Type 0} → (A → String) → List A → String → Type 0
HasId key xs k = exists_where (λ x. key x === k) xs ≡ true

abbrev pub HasIdOrNull : {A : Type 0} → (A → String) → List A → Option String → Type 0
HasIdOrNull key xs none = Unit
HasIdOrNull key xs (some k) = HasId key xs k

-- A template of the list, none, or an empty text.
abbrev pub HasTemplate : List PlannerTemplate → Option String → Type 0
HasTemplate ts none = Unit
HasTemplate ts (some t) =
    (is_empty t || exists_where (λ (x : PlannerTemplate). x.id === t) ts) ≡ true

module _ (b : BackupRows) where
  abbrev pub CharacterThere : String → Type 0
  CharacterThere c = HasId (λ (x : AppCharacter). x.id) b.characters c

  abbrev pub TemplateThere : String → Type 0
  TemplateThere t = HasId (λ (x : PlannerTemplate). x.id) b.templates t

  abbrev pub ItemThere : String → Type 0
  ItemThere i = HasId (λ (x : EconomyItem). x.id) b.items i

  abbrev pub RunThere : String → Type 0
  RunThere r = HasId (λ (x : LootRun). x.id) b.runs r

  abbrev pub EntryThere : String → Option String → Type 0
  EntryThere r i = RunThere r × HasIdOrNull (λ (x : EconomyItem). x.id) b.items i

-- All that the rows refer to is among the rows.
pub record IsClosed (b : BackupRows) : Type 0 where
  pub assignments :
      All
        (λ (a : PlannerAssignment). CharacterThere b a.character_id × TemplateThere b a.template_id)
        b.assignments
  pub completions :
      All
        (λ (c : PlannerCompletion). CharacterThere b c.character_id × TemplateThere b c.template_id)
        b.completions
  pub charge_uses :
      All
        (λ (u : PlannerChargeUse). CharacterThere b u.character_id × TemplateThere b u.template_id)
        b.charge_uses
  pub durations :
      All
        (λ (d : PlannerDuration).
          CharacterThere b d.character_id × HasTemplate b.templates d.template_id)
        b.durations
  pub prices : All (λ (p : EconomyPrice). ItemThere b p.item_id) b.prices
  pub watches : All (λ (w : EconomyPriceWatch). ItemThere b w.item_id) b.watches
  pub scores : All (λ (s : ScoreRow). CharacterThere b s.character_id) b.scores
  pub presets : All (λ (p : PresetRow). CharacterThere b p.character_id) b.presets
  pub runs : All (λ (r : LootRun). CharacterThere b r.character_id) b.runs
  pub drops : All (λ (d : LootRunDrop). EntryThere b d.run_id d.item_id) b.drops
  pub costs : All (λ (c : LootRunCost). EntryThere b c.run_id c.item_id) b.costs

module _ {A : Type 0} (key : A → String) where
  is_member-map :
      (xs : List A) (k : String) → is_member (map key xs) k ≡ exists_where (λ x. key x === k) xs
  unfolding exists_where
  is_member-map [] k = refl
  is_member-map (x ∷ xs) k = ap (λ e. key x === k || e) (is_member-map xs k)

  there : (xs : List A) (k : String) → is_member (map key xs) k ≡ true → HasId key xs k
  there xs k m = rw (← is_member-map xs k) m

  there_or_null :
      (xs : List A) (o : Option String)
      → member_or_null (map key xs) o ≡ true
      → HasIdOrNull key xs o
  there_or_null xs none m = tt
  there_or_null xs (some k) m = there xs k m

template_there :
    (ts : List PlannerTemplate) (o : Option String)
    → not (unknown_template (map (λ (t : PlannerTemplate). t.id) ts) o) ≡ true
    → HasTemplate ts o
template_there ts none m = tt
template_there ts (some t) m = ground (arith, is_member-map (λ (x : PlannerTemplate). x.id) ts t, m)

trivially : {A : Type 0} (xs : List A) → All (λ x. Unit {0}) xs
trivially [] = tt
trivially (x ∷ xs) = (tt, trivially xs)

-- For any backup, whatever it has and refers to: each assignment, completion and use of a charge
-- that the import reads has a character and a template that it reads too; each duration a
-- character, and a template, none, or one with an empty identity; each price and watch an item;
-- each build score, preset and run a character; and each drop and cost a run, and an item or
-- none.
pub read_backup-IsClosed :
    (w : World) (now : String) (first_version : Bool) (raw : Json)
    → IsClosed (read_backup w now first_version raw)
unfolding read_backup
read_backup-IsClosed w now first_version raw =
    let b = read_backup w now first_version raw in
    let character = there (λ (c : AppCharacter). c.id) b.characters in
    let template = there (λ (t : PlannerTemplate). t.id) b.templates in
    let item = there (λ (i : EconomyItem). i.id) b.items in
    let item_or_null = there_or_null (λ (i : EconomyItem). i.id) b.items in
    let run = there (λ (r : LootRun). r.id) b.runs in
    record {
      assignments =
          All-map _ _ b.assignments
            (λ a k. (character a.character_id k.0, template a.template_id k.1))
            (read_assignments-known _ _ w now _);
      completions =
          All-map _ _ b.completions
            (λ a k. (character a.character_id k.0, template a.template_id k.1))
            (read_completions-known _ _ w now _);
      charge_uses =
          All-map _ _ b.charge_uses
            (λ a k. (character a.character_id k.0, template a.template_id k.1))
            (read_charge_uses-known _ _ w now _);
      durations =
          All-map _ _ b.durations
            (λ d k. (character d.character_id k.0, template_there b.templates d.template_id k.1))
            (read_durations-known _ _ w now _);
      prices = All-map _ _ b.prices (λ p k. item p.item_id k) (read_prices-known now _ _);
      watches = All-map _ _ b.watches (λ p k. item p.item_id k) (read_watches-known now _ _);
      scores = All-select _ _ _ _ (λ s e u. character s.character_id e) (trivially _);
      presets = All-select _ _ _ _ (λ s e u. character s.character_id e) (trivially _);
      runs = All-map _ _ b.runs (λ r k. character r.character_id k) (read_runs-known now _ _);
      drops =
          All-map _ _ b.drops (λ d k. (run d.run_id k.0, item_or_null d.item_id k.1))
            (read_drops-known now _ _ _);
      costs =
          All-map _ _ b.costs (λ c k. (run c.run_id k.0, item_or_null c.item_id k.1))
            (read_costs-known now _ _ _);
    }
