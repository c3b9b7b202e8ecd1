-- ===== src/Backup/Known.antt =====
-- The rows that `importUserBackup` of apps/desktop/src/main/storage/domains/backup.ts reads refer
-- to what the backup has.
use aion2_hub.Prelude.{
  ◌≡◌, refl, inl, inr, String, Bool, true, not, Bool-cases, Option, none, some, List,
}
use aion2_hub.Prelude.Sort.{All}
use aion2_hub.Planner.{PlannerAssignment, PlannerCompletion, PlannerChargeUse, PlannerDuration}
use aion2_hub.Economy.{EconomyPriceWatchOp, EconomyPrice, EconomyPriceWatch}
use aion2_hub.Loot.{LootRunCostKind, LootRun, LootRunDrop, LootRunCost}
use aion2_hub.Json.{Json}
use aion2_hub.Backup.{World, array_at, is_member}
use aion2_hub.Backup.Reads.{read_price_entry, read_prices, watch_of, read_watch_entry, read_watches}
use aion2_hub.Backup.Entries.{
  read_run_entry, read_runs, known_item, read_drop_entry, read_drops, if_item, cost_entry,
  read_cost_entry, read_costs, with_pair, read_assignment_entry, read_assignments,
  read_completion_entry, read_completions, read_charge_entry, read_charge_uses, unknown_template,
  read_duration_entry, read_durations,
}
use aion2_hub.Backup.Given.{
  Given, some-Given, none-Given, with_text-Given, when-Given, read_each-All,
}

abbrev pub member_or_null : List String → Option String → Bool
member_or_null ids none = true
member_or_null ids (some id) = is_member ids id

module _ (now : String) (ids : List String) where
  pub read_prices-known :
      (economy : Json)
      → All (λ (p : EconomyPrice). is_member ids p.item_id ≡ true) (read_prices now ids economy)
  unfolding read_prices
  read_prices-known economy =
      read_each-All _ (read_price_entry now ids)
        (λ v. with_text-Given _ _ _ λ id.
          with_text-Given _ _ _
            λ item_id. when-Given _ λ known. with_text-Given _ _ _ λ server. some-Given _ known)
        (array_at economy "prices")

  watch_of-known :
      (p : Json) (id item_id server : String) (op : Option EconomyPriceWatchOp)
      → is_member ids item_id ≡ true
      → Given
          (λ (x : EconomyPriceWatch). is_member ids x.item_id ≡ true)
          (watch_of now p id item_id server op)
  watch_of-known p id item_id server none known = none-Given _
  watch_of-known p id item_id server (some op) known = some-Given _ known

  pub read_watches-known :
      (economy : Json)
      → All
          (λ (p : EconomyPriceWatch). is_member ids p.item_id ≡ true)
          (read_watches now ids economy)
  unfolding read_watches
  read_watches-known economy =
      read_each-All _ (read_watch_entry now ids)
        (λ v. with_text-Given _ _ _ λ id. with_text-Given _ _ _ λ item_id.
          when-Given _
            λ known. with_text-Given _ _ _ λ server. watch_of-known v id item_id server _ known)
        (array_at economy "watches")

  pub read_runs-known :
      (loot : Json)
      → All (λ (r : LootRun). is_member ids r.character_id ≡ true) (read_runs now ids loot)
  unfolding read_runs
  read_runs-known loot =
      read_each-All _ (read_run_entry now ids)
        (λ v. with_text-Given _ _ _ λ id.
          with_text-Given _ _ _ λ character_id.
            when-Given _ λ known. with_text-Given _ _ _ λ content. some-Given _ known)
        (array_at loot "runs")

known_item-member :
    (ids : List String) (o : Option String) → member_or_null ids (known_item ids o) ≡ true
known_item-member ids none = refl
known_item-member ids (some id) = elim (Bool-cases (is_member ids id)) [
  | inl e ↦ rw (e, e) refl
  | inr e ↦ rw e refl
]

-- A run and an item of the backup.
abbrev pub KnownEntry : List String → List String → String → Option String → Type 0
KnownEntry run_ids item_ids run item =
    (is_member run_ids run ≡ true) × (member_or_null item_ids item ≡ true)

module _ (now : String) (run_ids item_ids : List String) where
  pub read_drops-known :
      (loot : Json)
      → All
          (λ (d : LootRunDrop). KnownEntry run_ids item_ids d.run_id d.item_id)
          (read_drops now run_ids item_ids loot)
  unfolding read_drops
  read_drops-known loot =
      read_each-All _ (read_drop_entry now run_ids item_ids)
        (λ v. with_text-Given _ _ _ λ id. with_text-Given _ _ _ λ run_id. when-Given _ λ known.
          with_text-Given _ _ _ λ item_name.
            when-Given _ λ positive. some-Given _ (known, known_item-member item_ids _))
        (array_at loot "drops")

  if_item-member :
      (kind : LootRunCostKind) (o : Option String)
      → member_or_null item_ids (if_item kind (known_item item_ids o)) ≡ true
  if_item-member LootRunCostKind.kinah o = refl
  if_item-member LootRunCostKind.item o = known_item-member item_ids o

  cost_entry-known :
      (c : Json) (id run_id : String) (kind : Option LootRunCostKind)
      → is_member run_ids run_id ≡ true
      → Given
          (λ (x : LootRunCost). KnownEntry run_ids item_ids x.run_id x.item_id)
          (cost_entry now item_ids c id run_id kind)
  cost_entry-known c id run_id none known = none-Given _
  cost_entry-known c id run_id (some kind) known = some-Given _ (known, if_item-member kind _)

  pub read_costs-known :
      (loot : Json)
      → All
          (λ (c : LootRunCost). KnownEntry run_ids item_ids c.run_id c.item_id)
          (read_costs now run_ids item_ids loot)
  unfolding read_costs
  read_costs-known loot =
      read_each-All _ (read_cost_entry now run_ids item_ids)
        (λ v. with_text-Given _ _ _ λ id.
          with_text-Given _ _ _
            λ run_id. when-Given _ λ known. cost_entry-known v id run_id _ known)
        (array_at loot "costs")

module _ (character_ids template_ids : List String) where
  -- A character and a template of the backup.
  abbrev pub KnownPair : String → String → Type 0
  KnownPair c t = (is_member character_ids c ≡ true) × (is_member template_ids t ≡ true)

  -- A template that is NULL, blank or of the backup.
  abbrev pub KnownDuration : PlannerDuration → Type 0
  KnownDuration d =
      (is_member character_ids d.character_id ≡ true)
      × (not (unknown_template template_ids d.template_id) ≡ true)

  with_pair-Given :
      {A : Type 0} (P : A → Type 0) (v : Json) (k : String → String → String → Option A)
      → ((id c t : String) → KnownPair c t → Given P (k id c t))
      → Given P (with_pair character_ids template_ids v k)
  with_pair-Given P v k h = with_text-Given _ _ _ λ id. with_text-Given _ _ _ λ c.
      with_text-Given _ _ _ λ t. when-Given _ λ named.
        when-Given _
          λ of_character. when-Given _ λ of_template. h id c t (of_character, of_template)

  module _ (w : World) (now : String) where
    pub read_assignments-known :
        (planner : Json)
        → All
            (λ (a : PlannerAssignment). KnownPair a.character_id a.template_id)
            (read_assignments w now character_ids template_ids planner)
    unfolding read_assignments
    read_assignments-known planner =
        read_each-All _ (read_assignment_entry w now character_ids template_ids)
          (λ v. with_pair-Given _ v _ λ id c t known. some-Given _ known)
          (array_at planner "assignments")

    pub read_completions-known :
        (planner : Json)
        → All
            (λ (a : PlannerCompletion). KnownPair a.character_id a.template_id)
            (read_completions w now character_ids template_ids planner)
    unfolding read_completions
    read_completions-known planner =
        read_each-All _ (read_completion_entry w now character_ids template_ids)
          (λ v. with_pair-Given _ v _ λ id c t known.
            with_text-Given _ _ _
              λ period_key. with_text-Given _ _ _ λ completed_at. some-Given _ known)
          (array_at planner "completions")

    pub read_charge_uses-known :
        (planner : Json)
        → All
            (λ (u : PlannerChargeUse). KnownPair u.character_id u.template_id)
            (read_charge_uses w now character_ids template_ids planner)
    unfolding read_charge_uses
    read_charge_uses-known planner =
        read_each-All _ (read_charge_entry w now character_ids template_ids)
          (λ v.
            with_pair-Given _ v _
              λ id c t known. with_text-Given _ _ _ λ used_at. some-Given _ known)
          (array_at planner "chargeUses")

    pub read_durations-known :
        (planner : Json)
        → All KnownDuration (read_durations w now character_ids template_ids planner)
    unfolding read_durations
    read_durations-known planner =
        read_each-All _ (read_duration_entry w now character_ids template_ids)
          (λ v. with_text-Given _ _ _ λ id. with_text-Given _ _ _ λ character_id.
            when-Given _ λ named. when-Given _ λ of_character. when-Given _ λ of_template.
              with_text-Given _ _ _ λ started_at.
                with_text-Given _ _ _ λ ended_at. some-Given _ (of_character, of_template))
          (array_at planner "durations")
