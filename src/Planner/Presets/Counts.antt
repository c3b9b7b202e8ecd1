-- ===== src/Planner/Presets/Counts.antt =====
-- What a preset creates and what it skips.
use aion2_hub.Prelude.{
  ℕ, ◌+◌, ◌≤◌, ◌≡◌, refl, ◌∙◌, String, ◌===◌, ===_refl, ===_ne, ap, Bool, true, false, ◌||◌, List,
  [], ◌∷◌, ◌++◌, Option, length, arith, inl, inr, Bool-cases, length-append,
}
use aion2_hub.Prelude.Sort.{All}
use aion2_hub.Sql.{ok, exists_where, insert_row}
use aion2_hub.Sql.Laws.{exists-snoc}
use aion2_hub.Planner.{PlannerTemplate, Database}
use aion2_hub.Planner.Templates.{
  delete_all_templates, TemplateInput, new_template, create_planner_template, assign_characters,
}
use aion2_hub.Planner.Presets.{
  Mode, RawTemplate, PresetCounts, has_key, make_key, existing_keys, prepared, normalized_templates,
  apply_loop, apply_planner_preset,
}

abbrev has_template_id : String → PlannerTemplate → Bool
has_template_id id t = t.id === id

abbrev with_template : Database → TemplateInput → String → ℕ → Database
with_template db input id now = record db {
  templates = db.templates ++ new_template input id now ∷ [];
  assignments = assign_characters id now db.characters db.assignments;
}

create_fresh :
    (db : Database) (input : TemplateInput) (id : String) (now : ℕ)
    → exists_where (has_template_id id) db.templates ≡ false
    → create_planner_template db input id now ≡ ok (with_template db input id now)
unfolding create_planner_template insert_row
create_fresh db input id now e = rw e refl

prepared_new :
    (mode : Mode) (db : Database) (id : String)
    → exists_where (has_template_id id) db.templates ≡ false
    → exists_where (has_template_id id) (prepared mode db).templates ≡ false
unfolding delete_all_templates exists_where
prepared_new Mode.merge db id e = e
prepared_new Mode.replace db id e = refl

module _ (lower : String → String) where
  abbrev key_of : TemplateInput → String
  key_of t = make_key lower t.type t.title

  -- The key of the new template is there after it is put in, and the others are still.
  new_key :
      (ts : List PlannerTemplate) (t : TemplateInput) (id : String) (now : ℕ) (k : String)
      → has_key k (existing_keys lower (ts ++ new_template t id now ∷ []))
        ≡ (has_key k (existing_keys lower ts) || key_of t === k)
  unfolding has_key existing_keys new_template
  new_key [] t id now k = ground arith
  new_key (u ∷ ts) t id now k = ground (arith, new_key ts t id now k)

  known_after :
      (t : TemplateInput) (keys : List String) (db : Database) (id : String) (now : ℕ)
      → ((k : String) → has_key k keys ≡ true → has_key k (existing_keys lower db.templates) ≡ true)
      → (k : String) → has_key k (key_of t ∷ keys) ≡ true
      → has_key k (existing_keys lower (with_template db t id now).templates) ≡ true
  unfolding has_key
  known_after t keys db id now known k h = ground (arith, known k, new_key db.templates t id now k)

  module _ (fresh : ℕ → String) (clock : ℕ → ℕ) where
    -- Templates with known keys are all skipped.
    All-skipped :
        (ts : List TemplateInput) (keys : List String) (n : PresetCounts) (db : Database)
        → All (λ (t : TemplateInput). has_key (key_of t) keys ≡ true) ts
        → apply_loop lower fresh clock ts keys n db
          ≡ ok (record n { skipped = n.skipped + length ts }, db)
    unfolding apply_loop
    All-skipped [] keys n db h =
        let e : n.skipped ≡ n.skipped + 0 = omega arith in
        ap (λ k. ok (record n { skipped = k }, db)) e
    All-skipped (t ∷ ts) keys n db h =
        let e : n.skipped + 1 + length ts ≡ n.skipped + length (t ∷ ts) = omega arith in
        rw (h.0, All-skipped ts keys (record n { skipped = n.skipped + 1 }) db h.1)
          (ap (λ k. ok (record n { skipped = k }, db)) e)

    module _ (inj : (i j : ℕ) → fresh i ≡ fresh j → i ≡ j) where
      new_after :
          (t : TemplateInput) (n : ℕ) (db : Database) (now : ℕ)
          → ((k : ℕ) → n ≤ k → exists_where (has_template_id (fresh k)) db.templates ≡ false)
          → (k : ℕ) → n + 1 ≤ k
          → exists_where (has_template_id (fresh k)) (with_template db t (fresh n) now).templates
            ≡ false
      unfolding new_template
      new_after t n db now new k h =
          let e =
            exists-snoc (has_template_id (fresh k)) db.templates (new_template t (fresh n) now) in
          let f = new k (omega arith) in
          let g = ===_ne (fresh n) (fresh k) (λ p. absurd (omega (arith, inj n k p))) in
          ground (arith, e, f, g)

      -- What the loop gives.
      Gives : List TemplateInput → List String → PresetCounts → Database → Type 0
      Gives ts keys n db =
          (m : PresetCounts) × (after : Database) × (apply_loop lower fresh clock ts keys n db
            ≡ ok (m, after))
          × (m.created + m.skipped ≡ n.created + n.skipped + length ts)
          × (length after.templates + n.created ≡ length db.templates + m.created)
          × ((k : String)
              → has_key k (existing_keys lower db.templates) ≡ true
              → has_key k (existing_keys lower after.templates) ≡ true)
          × All
              (λ (t : TemplateInput).
                has_key (key_of t) (existing_keys lower after.templates) ≡ true)
              ts

      loop-Gives :
          (ts : List TemplateInput) (keys : List String) (n : PresetCounts) (db : Database)
          → ((k : String)
              → has_key k keys ≡ true
              → has_key k (existing_keys lower db.templates) ≡ true)
          → ((k : ℕ)
              → n.created ≤ k
              → exists_where (has_template_id (fresh k)) db.templates ≡ false)
          → Gives ts keys n db
      unfolding apply_loop Gives
      loop-Gives [] keys n db known new = (n, db, refl, omega arith, omega arith, λ k h. h, tt)
      loop-Gives (t ∷ ts) keys n db known new = elim (Bool-cases (has_key (key_of t) keys)) [
        | inl e ↦
            let (m, after, r, c, l, k, a) =
              loop-Gives ts keys (record n { skipped = n.skipped + 1 }) db known new in
            (m, after, rw e r, omega (arith, c), l, k, (k (key_of t) (known (key_of t) e), a))
        | inr e ↦
            let now = clock n.created in
            let db1 = with_template db t (fresh n.created) now in
            let (m, after, r, c, l, k, a) =
              loop-Gives ts (key_of t ∷ keys) (record n { created = n.created + 1 }) db1
                (known_after t keys db (fresh n.created) now known)
                (new_after t n.created db now new) in
            (
              m,
              after,
              rw (e, create_fresh db t (fresh n.created) now (new n.created (omega arith))) r,
              omega (arith, c),
              omega (
                arith,
                l,
                length-append db.templates (new_template t (fresh n.created) now ∷ []),
              ),
              λ k' h. k k' (ground (arith, new_key db.templates t (fresh n.created) now k', h)),
              (
                k (key_of t) (
                    ground (
                      arith,
                      new_key db.templates t (fresh n.created) now (key_of t),
                      ===_refl (key_of t),
                    )),
                a,
              ),
            )
      ]

-- Applying a preset succeeds, where the new identities are all different and those of no template.
-- Each entry that passes the checks is created or skipped; there are as many templates as before
-- the call, or none before it in the mode `replace`, and those that are counted as
-- created; and merging the same preset again creates nothing and leaves the database as it is.
pub apply_planner_preset-again :
    (lower : String → String) (fresh : ℕ → String) (clock : ℕ → ℕ) (db : Database) (mode : Mode)
    (ts : List (Option RawTemplate))
    → ((i j : ℕ) → fresh i ≡ fresh j → i ≡ j)
    → ((k : ℕ) → exists_where (λ (t : PlannerTemplate). t.id === fresh k) db.templates ≡ false)
    → (n : PresetCounts) × (after : Database) × (apply_planner_preset lower fresh clock db mode ts
        ≡ ok (n, after))
      × (n.created + n.skipped ≡ length (normalized_templates ts))
      × (length after.templates ≡ length (prepared mode db).templates + n.created)
      × ((fresh' : ℕ → String) (clock' : ℕ → ℕ)
          → apply_planner_preset lower fresh' clock' after Mode.merge ts
            ≡ ok (record { created = 0; skipped = length (normalized_templates ts) }, after))
unfolding apply_planner_preset Gives
apply_planner_preset-again lower fresh clock db mode ts inj new =
    let db0 = prepared mode db in
    let none_before : 0 + length (normalized_templates ts) ≡ length (normalized_templates ts) =
      omega arith in
    let (n, after, r, c, l, k, a) =
      loop-Gives lower fresh clock inj (normalized_templates ts) (existing_keys lower db0.templates)
        (record { created = 0; skipped = 0 }) db0 (λ k h. h)
        (λ k h. prepared_new mode db (fresh k) (new k)) in
    (
      n,
      after,
      r,
      omega (arith, c),
      omega (arith, l),
      λ fresh' clock'.
          All-skipped lower fresh' clock' (normalized_templates ts)
            (existing_keys lower after.templates) (record { created = 0; skipped = 0 }) after a
          ∙ ap (λ k. ok (record { created = 0; skipped = k }, after)) none_before,
    )
