-- ===== src/Planner/Settings/Effective.antt =====
-- The settings in force after those of a server are set and after they are cleared.
use aion2_hub.Prelude.{
  ℕ, ◌≡◌, ◌≢◌, refl, sym, ap, ◌∙◌, inl, inr, String, false, Option, none, some, Option-cases,
}
use aion2_hub.Text.{trim, is_empty}
use aion2_hub.Sql.{delete_where}
use aion2_hub.Sql.Keys.{one_where-delete, one_where-delete_other}
use aion2_hub.Planner.{Database}
use aion2_hub.Planner.Settings.{
  PlannerSettings, SettingsInput, PlannerSettingsScope, normalize_server_name,
  planner_settings_id_for_server, read_planner_settings_by_id, get_planner_settings, bundle_for,
  get_planner_settings_bundle, get_planner_settings_effective, set_planner_settings_for_server,
  clear_planner_settings_for_server,
}
use aion2_hub.Planner.Settings.Reads.{
  settings_of, is_row, read-read_row, other_row, upserted, read-upsert, read-upsert_other,
  server≢default, server_id_inj, defaults-keep, defaults_congr,
}

abbrev chosen : PlannerSettings → Option PlannerSettings → PlannerSettings × PlannerSettingsScope
chosen d none = (d, PlannerSettingsScope.default_scope)
chosen d (some s) = (s, PlannerSettingsScope.server_scope)

-- The settings in force for a server, and their scope.
abbrev pub in_force : Database → Option String → ℕ → PlannerSettings × PlannerSettingsScope
in_force db server now =
    let (settings, scope, after) = get_planner_settings_effective db server now in (settings, scope)

bundle-chosen :
    (db : Database) (base : PlannerSettings) (name : String)
    → let bundle = bundle_for db base (some name) in
      (bundle.effective, bundle.effective_scope)
      ≡ chosen base (read_planner_settings_by_id db (planner_settings_id_for_server name))
unfolding bundle_for
bundle-chosen db base name =
    elim (Option-cases (read_planner_settings_by_id db (planner_settings_id_for_server name))) [
      | inl e ↦ rw (e, bundle_for) refl
      | inr (s, e) ↦ rw (e, bundle_for) refl
    ]

module _ (server : String) (h : is_empty (trim server) ≡ false) where
  normalized : normalize_server_name (some server) ≡ some (trim server)
  unfolding normalize_server_name
  normalized = rw h refl

  server_id : String
  server_id = planner_settings_id_for_server (trim server)

  in_force-chosen :
      (db : Database) (now : ℕ)
      → in_force db (some server) now
        ≡ chosen (get_planner_settings db now).0 (read_planner_settings_by_id db server_id)
  unfolding get_planner_settings_effective get_planner_settings_bundle server_id
  in_force-chosen db now =
      let (base, db') = get_planner_settings db now in
      rw normalized (
        bundle-chosen db' base (trim server)
        ∙ ap (chosen base) (defaults-keep db now server_id (server≢default (trim server))))

  set-upserted :
      (db : Database) (input : SettingsInput) (now : ℕ)
      → set_planner_settings_for_server db server input now ≡ upserted db server_id input now
  unfolding set_planner_settings_for_server server_id
  set-upserted db input now = rw (normalized, set_planner_settings_for_server) refl

  cleared : Database → Database
  cleared db = record db { planner_settings = delete_where (is_row server_id) db.planner_settings }

  clear-cleared : (db : Database) → clear_planner_settings_for_server db server ≡ cleared db
  unfolding clear_planner_settings_for_server cleared server_id
  clear-cleared db = rw (normalized, clear_planner_settings_for_server) refl

  read-cleared :
      (db : Database)
      → (read_planner_settings_by_id (cleared db) server_id ≡ none)
        × (read_planner_settings_by_id (cleared db) "default"
            ≡ read_planner_settings_by_id db "default")
  unfolding cleared server_id
  read-cleared db = (
    read-read_row (cleared db) server_id
        ∙ rw (one_where-delete (is_row server_id) db.planner_settings) refl,
    read-read_row (cleared db) "default"
        ∙ rw
            (one_where-delete_other (is_row "default") (is_row server_id) db.planner_settings
              (λ r e. other_row server_id "default" r (server≢default (trim server)) e))
            (sym (read-read_row db "default")),
  )

in_force-default :
    (db : Database) (now : ℕ)
    → in_force db none now ≡ ((get_planner_settings db now).0, PlannerSettingsScope.default_scope)
unfolding get_planner_settings_effective get_planner_settings_bundle normalize_server_name
    bundle_for
in_force-default db now = refl

-- Settings that are set for a server whose name is not blank are in force for it, whatever white
-- space is around the name, with the time of the call. Those in force for a server of another
-- name stay, also where it has none of its own and the default applies, and so does the
-- default. When they are cleared, the default is in force for the server.
pub set_planner_settings_for_server-effective :
    (db : Database) (server : String) (input : SettingsInput) (now clock : ℕ)
    → is_empty (trim server) ≡ false
    → let after = set_planner_settings_for_server db server input now in
      (in_force after (some server) clock
        ≡ (settings_of input now, PlannerSettingsScope.server_scope))
      × ((other : String)
          → is_empty (trim other) ≡ false
          → trim server ≢ trim other
          → in_force after (some other) clock ≡ in_force db (some other) clock)
      × (in_force after none clock ≡ in_force db none clock)
      × (in_force (clear_planner_settings_for_server after server) (some server) clock
          ≡ in_force db none clock)
unfolding server_id
set_planner_settings_for_server-effective db server input now clock h =
    let id = server_id server h in
    let after = upserted db id input now in
    let keeps =
      defaults_congr db clock after
        (read-upsert_other db id input now "default" (server≢default (trim server))) in
    let (gone, default) = read-cleared server h after in
    rw (set-upserted server h db input now, clear-cleared server h after)
      (
        in_force-chosen server h after clock
            ∙ ap (chosen (get_planner_settings after clock).0) (read-upsert db id input now),
        λ other k ne.
            in_force-chosen other k after clock
            ∙ rw
                (
                  keeps,
                  read-upsert_other db id input now (server_id other k)
                      (λ e. ne (server_id_inj (trim server) (trim other) e)),
                )
                (sym (in_force-chosen other k db clock)),
        in_force-default after clock ∙ rw keeps (sym (in_force-default db clock)),
        in_force-chosen server h (cleared server h after) clock
            ∙ rw
                (
                  gone,
                  defaults_congr db clock (cleared server h after) (
                      default
                      ∙ read-upsert_other db id input now "default" (server≢default (trim server))),
                )
                (sym (in_force-default db clock)),
      )
