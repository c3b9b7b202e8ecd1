-- ===== src/Backup/Keys.antt =====
-- `importUserBackup` of apps/desktop/src/main/storage/domains/backup.ts keeps the keys of all the
-- tables that it writes to apart.
use aion2_hub.Prelude.{◌≡◌}
use aion2_hub.Sql.{Result, ok, err}
use aion2_hub.Sql.Distinct.{IsFresh, same_key}
use aion2_hub.Planner.Keys as PlannerKeys
use aion2_hub.Json.{Json}
use aion2_hub.Backup.{UserDb}
use aion2_hub.Backup.Writes.{
  price_key, watch_key, run_key, drop_key, cost_key, score_key, preset_key, same_identity,
}

-- The keys of all tables.
pub record HasKeys (db : UserDb) : Type 0 where
  pub planner : PlannerKeys.HasKeys db.logbook.planner
  pub items : IsFresh same_identity db.logbook.economy.items
  pub prices : IsFresh (same_key price_key) db.logbook.economy.prices
  pub watches : IsFresh (same_key watch_key) db.logbook.economy.watches
  pub runs : IsFresh (same_key run_key) db.logbook.runs
  pub drops : IsFresh (same_key drop_key) db.logbook.drops
  pub costs : IsFresh (same_key cost_key) db.logbook.costs
  pub scores : IsFresh (same_key score_key) db.scores
  pub presets : IsFresh (same_key preset_key) db.presets

-- What an import leaves of `before`: tables with keys, or `before` where it throws.
abbrev pub Imported : UserDb → Result (Unit {0}) × UserDb → Type 0
Imported before (ok u, after) = HasKeys after
Imported before (err e, after) = after ≡ before
