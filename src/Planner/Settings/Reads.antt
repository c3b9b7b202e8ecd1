-- ===== src/Planner/Settings/Reads.antt =====
-- What the settings of one identity read as after the statements on their table.
use aion2_hub.Prelude.{
  ℕ, ◌≡◌, ◌≢◌, refl, sym, ap, ◌∙◌, inl, inr, String, ◌===◌, ===_refl, ===_ne, ===_iff, Bool, true,
  false, Bool-cases, Option, none, some, arith, Option-cases,
}
use aion2_hub.Text.{◌<+>◌}
use Prim.Native.Char.{code}
use text.Mathlib.TextLemmas.{append_cancel_left, cons-append, head-eq_of_cons-eq}
use aion2_hub.Sql.{exists_where, one_where}
use aion2_hub.Sql.Laws.{one_where-snoc}
use aion2_hub.Sql.Keys.{one_where-snoc_other, one_where-update, one_where-update_other}
use aion2_hub.Planner.{PlannerSettingsRow, Database}
use aion2_hub.Planner.Settings.{
  PlannerSettings, SettingsInput, settings_row, planner_settings_id_for_server,
  read_planner_settings_by_id, upsert_settings, get_planner_settings, initial_settings,
}

abbrev pub settings_of : SettingsInput → ℕ → PlannerSettings
settings_of input now = record {
  daily_reset_hhmm = input.daily_reset_hhmm;
  weekly_reset_day = input.weekly_reset_day;
  updated_at = now;
}

abbrev pub read_row : Option PlannerSettingsRow → Option PlannerSettings
read_row none = none
read_row (some r) = some (record {
  daily_reset_hhmm = r.daily_reset_hhmm;
  weekly_reset_day = r.weekly_reset_day;
  updated_at = r.updated_at;
})

abbrev pub is_row : String → PlannerSettingsRow → Bool
is_row id r = r.id === id

pub read-read_row :
    (db : Database) (id : String)
    → read_planner_settings_by_id db id ≡ read_row (one_where (is_row id) db.planner_settings)
unfolding read_planner_settings_by_id
read-read_row db id = refl

pub other_row :
    (id other : String) (r : PlannerSettingsRow)
    → id ≢ other
    → is_row id r ≡ true
    → is_row other r ≡ false
other_row id other r h e = ===_ne r.id other (λ f. h (sym ((===_iff r.id id).0 e) ∙ f))

module _ (db : Database) (id : String) (input : SettingsInput) (now : ℕ) where
  abbrev pub upserted : Database
  upserted = record db { planner_settings = upsert_settings id input now db.planner_settings }

  pub read-upsert : read_planner_settings_by_id upserted id ≡ some (settings_of input now)
  unfolding upsert_settings
  read-upsert = elim (Bool-cases (exists_where (is_row id) db.planner_settings)) [
    | inl e ↦
        let f = λ (r : PlannerSettingsRow). settings_row r.id input now in
        let (r, h) = one_where-update (is_row id) f db.planner_settings (λ r. refl) e in
        read-read_row upserted id ∙ rw (e, h) refl
    | inr e ↦
        read-read_row upserted id
        ∙ rw
            (
              e,
              one_where-snoc (is_row id) db.planner_settings (settings_row id input now) e
                  (===_refl id),
            )
            refl
  ]

  pub read-upsert_other :
      (other : String)
      → id ≢ other
      → read_planner_settings_by_id upserted other ≡ read_planner_settings_by_id db other
  unfolding upsert_settings
  read-upsert_other other h =
      read-read_row upserted other
      ∙ (elim (Bool-cases (exists_where (is_row id) db.planner_settings)) [
        | inl e ↦
            rw
              (
                e,
                one_where-update_other (is_row other) (is_row id) (λ r. settings_row r.id input now)
                    db.planner_settings
                    (λ r k. (other_row id other r h k, other_row id other r h k)),
              )
              refl
        | inr e ↦
            rw
              (
                e,
                one_where-snoc_other (is_row other) db.planner_settings (settings_row id input now)
                    (===_ne id other h),
              )
              refl
      ])
      ∙ sym (read-read_row db other)

-- The identity of a server's settings is not that of the default.
pub server≢default : (server : String) → planner_settings_id_for_server server ≢ "default"
unfolding planner_settings_id_for_server ◌<+>◌
server≢default server e =
    let h = head-eq_of_cons-eq (sym (cons-append "s" "erver:" server) ∙ e) in
    absurd (omega (arith, ap code h))

pub server_id_inj :
    (a b : String) → planner_settings_id_for_server a ≡ planner_settings_id_for_server b → a ≡ b
unfolding planner_settings_id_for_server ◌<+>◌
server_id_inj a b e = append_cancel_left "server:" a b e

module _ (db : Database) (now : ℕ) where
  -- The default is put in where it is missing, and no other row changes.
  pub defaults-keep :
      (id : String)
      → id ≢ "default"
      → read_planner_settings_by_id (get_planner_settings db now).1 id
        ≡ read_planner_settings_by_id db id
  unfolding get_planner_settings
  defaults-keep id h = elim (Option-cases (read_planner_settings_by_id db "default")) [
    | inl e ↦
        rw (e, get_planner_settings)
          (read-read_row _ id
            ∙ rw
                (one_where-snoc_other (is_row id) db.planner_settings
                  (settings_row "default" initial_settings now)
                  (===_ne "default" id (λ f. h (sym f))))
                (sym (read-read_row db id)))
    | inr (s, e) ↦ rw (e, get_planner_settings) refl
  ]

  pub defaults_congr :
      (db' : Database)
      → read_planner_settings_by_id db' "default" ≡ read_planner_settings_by_id db "default"
      → (get_planner_settings db' now).0 ≡ (get_planner_settings db now).0
  unfolding get_planner_settings
  defaults_congr db' e = elim (Option-cases (read_planner_settings_by_id db "default")) [
    | inl f ↦ rw (e, f, get_planner_settings) refl
    | inr (s, f) ↦ rw (e, f, get_planner_settings) refl
  ]
