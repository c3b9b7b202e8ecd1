-- ===== src/Tests/Data.antt =====
-- Rows, and texts for new identities, that the runs start from.
use text.Mathlib.TextLemmas.{tail-eq_of_cons-eq, cons≢nil}
use aion2_hub.Prelude.{ℕ, zero, suc, ◌≡◌, ◌≢◌, refl, sym, ap, String, [], ◌∷◌, none, some}
use aion2_hub.Planner.{AppCharacter, TemplateType, PlannerTemplate, PlannerChargeUse, Database}
use aion2_hub.Planner.Keys.History.{empty_database}

-- Texts of different lengths for new identities.
abbrev pub tally : ℕ → String
tally zero = "n"
tally (suc n) = String.◌∷◌ "n" (tally n)

longer : (n : ℕ) → tally (suc n) ≢ tally zero
longer zero e = cons≢nil (tail-eq_of_cons-eq e)
longer (suc n) e = cons≢nil (tail-eq_of_cons-eq e)

pub tally_inj : (i j : ℕ) → tally i ≡ tally j → i ≡ j
tally_inj zero zero e = refl
tally_inj (suc i) zero e = absurd (longer i e)
tally_inj zero (suc j) e = absurd (longer j (sym e))
tally_inj (suc i) (suc j) e = ap suc (tally_inj i j (tail-eq_of_cons-eq e))

abbrev pub anna : AppCharacter
anna = record {
  id = "c1";
  name = "Anna";
  server = some "Siel";
  class = none;
  created_at = 1;
  updated_at = 1;
}

abbrev pub dungeon : PlannerTemplate
dungeon = record {
  id = "t1";
  title = "Dungeon";
  type = TemplateType.daily;
  estimate_minutes = 20;
  recharge_hours = none;
  max_stacks = none;
  created_at = 1;
  updated_at = 1;
}

abbrev pub arena : PlannerTemplate
arena = record dungeon {
  id = "t2";
  title = "Arena";
  type = TemplateType.charge;
  recharge_hours = some 8;
  max_stacks = some 3;
}

abbrev pub used_once : PlannerChargeUse
used_once = record { id = "u1"; character_id = "c1"; template_id = "t2"; used_at = 1000 }

abbrev pub small : Database
small = record empty_database {
  characters = anna ∷ [];
  templates = dungeon ∷ arena ∷ [];
  charge_uses = used_once ∷ [];
}
