-- ===== src/Planner/Assigned.antt =====
-- A new character gets every template, and a new template goes to every character.
use text.Mathlib.TextLemmas.{append_cancel_left}
use aion2_hub.Prelude.{
  ◌≡◌, refl, ap, Option, none, if◌then◌else◌, ℕ, inl, inr, String, Bool, true, false, List, [], ◌∷◌,
  some, ◌++◌, ◌===◌, ===_iff, ===_refl, arith, ◌&&◌, Bool-cases,
}
use aion2_hub.Prelude.Sort.{All}
use aion2_hub.Text.{◌<+>◌, is_empty}
use aion2_hub.Sql.{ok, one_where, exists_where, insert_row, insert_or_ignore}
use aion2_hub.Sql.Laws.{
  exists-or, exists-snoc, exists-snoc_new, one_where-snoc, exists-snoc_old, exists-insert_or_ignore,
}
use aion2_hub.Planner.{AppCharacter, PlannerTemplate, PlannerAssignment, Database}
use aion2_hub.Planner.Characters.{
  get_character, read_text, read_character, CharacterInput, assignment_id, same_assignment,
  new_assignment, new_character, create_character, assign_templates,
}
use aion2_hub.Planner.Templates.{
  TemplateInput, new_template, create_planner_template, assign_characters,
}

abbrev pub is_pair : String → String → PlannerAssignment → Bool
is_pair c t a = a.character_id === c && a.template_id === t

abbrev pub is_assigned : List PlannerAssignment → String → String → Bool
is_assigned rows c t = exists_where (is_pair c t) rows

abbrev pub has_id : String → PlannerAssignment → Bool
has_id id a = a.id === id

-- A row with this identity is one of this pair.
abbrev Owned : List PlannerAssignment → String → String → String → Type 0
Owned rows id c t = exists_where (has_id id) rows ≡ true → is_assigned rows c t ≡ true

assignment_id_inj : (o a b : String) → assignment_id o a ≡ assignment_id o b → a ≡ b
unfolding assignment_id ◌<+>◌
assignment_id_inj o a b e =
    append_cancel_left ":" a b (append_cancel_left o _ _ (append_cancel_left "assign:" _ _ e))

module _ (rows : List PlannerAssignment) (r : PlannerAssignment) where
  -- What `INSERT OR IGNORE` leaves, the row's pair is in it, if its identity is its own.
  insert_assigns :
      Owned rows r.id r.character_id r.template_id
      → is_assigned (insert_or_ignore (same_assignment r) r rows) r.character_id r.template_id
        ≡ true
  unfolding insert_or_ignore
  insert_assigns h = elim (Bool-cases (exists_where (same_assignment r) rows)) [
    | inl e ↦
        rw e
          (ground (arith, exists-or (has_id r.id) (is_pair r.character_id r.template_id) rows, h))
    | inr e ↦ rw e (
        exists-snoc_new (is_pair r.character_id r.template_id) rows r
          (ground (arith, ===_refl r.character_id, ===_refl r.template_id)))
  ]

  -- The identities of the other pairs stay their own.
  insert-Owned :
      (id c t : String)
      → (r.id ≡ id → (r.character_id ≡ c) × (r.template_id ≡ t))
      → Owned rows id c t
      → Owned (insert_or_ignore (same_assignment r) r rows) id c t
  unfolding insert_or_ignore
  insert-Owned id c t same h = elim (Bool-cases (exists_where (same_assignment r) rows)) [
    | inl e ↦ rw e h
    | inr e ↦ rw e λ f. elim (Bool-cases (r.id === id)) [
      | inl g ↦
          let (ec, et) = same ((===_iff r.id id).0 g) in
          exists-snoc_new (is_pair c t) rows r
            (ground (arith, (===_iff r.character_id c).1 ec, (===_iff r.template_id t).1 et))
      | inr g ↦
          exists-snoc_old (is_pair c t) rows r
            (h (ground (arith, f, g, exists-snoc (has_id id) rows r)))
    ]
  ]

module _ (id : String) (now : ℕ) where
  -- A pair that is assigned stays assigned.
  assign_templates-keeps :
      (ts : List PlannerTemplate) (rows : List PlannerAssignment) (c t : String)
      → is_assigned rows c t ≡ true
      → is_assigned (assign_templates id now ts rows) c t ≡ true
  unfolding assign_templates
  assign_templates-keeps [] rows c t e = e
  assign_templates-keeps (t' ∷ ts) rows c t e =
      let r = new_assignment (assignment_id id t'.id) id t'.id now in
      assign_templates-keeps ts _ c t
        (exists-insert_or_ignore (is_pair c t) (same_assignment r) r rows e)

  assign_characters-keeps :
      (cs : List AppCharacter) (rows : List PlannerAssignment) (c t : String)
      → is_assigned rows c t ≡ true
      → is_assigned (assign_characters id now cs rows) c t ≡ true
  unfolding assign_characters
  assign_characters-keeps [] rows c t e = e
  assign_characters-keeps (c' ∷ cs) rows c t e =
      let r = new_assignment (assignment_id id c'.id) c'.id id now in
      assign_characters-keeps cs _ c t
        (exists-insert_or_ignore (is_pair c t) (same_assignment r) r rows e)

  assign_templates-All :
      (ts : List PlannerTemplate) (rows : List PlannerAssignment)
      → ((t : String) → Owned rows (assignment_id id t) id t)
      → All
          (λ (t : PlannerTemplate). is_assigned (assign_templates id now ts rows) id t.id ≡ true)
          ts
  unfolding assign_templates
  assign_templates-All [] rows h = tt
  assign_templates-All (t ∷ ts) rows h =
      let r = new_assignment (assignment_id id t.id) id t.id now in
      (
        assign_templates-keeps ts _ id t.id (insert_assigns rows r (h t.id)),
        assign_templates-All ts _ (λ u.
            insert-Owned rows r (assignment_id id u) id u
              (λ e. (refl, assignment_id_inj id t.id u e)) (h u)),
      )

  assign_characters-All :
      (cs : List AppCharacter) (rows : List PlannerAssignment)
      → ((c : String) → Owned rows (assignment_id id c) c id)
      → All (λ (c : AppCharacter). is_assigned (assign_characters id now cs rows) c.id id ≡ true) cs
  unfolding assign_characters
  assign_characters-All [] rows h = tt
  assign_characters-All (c ∷ cs) rows h =
      let r = new_assignment (assignment_id id c.id) c.id id now in
      (
        assign_characters-keeps cs _ c.id id (insert_assigns rows r (h c.id)),
        assign_characters-All cs _ (λ u.
            insert-Owned rows r (assignment_id id u) u id
              (λ e. (assignment_id_inj id c.id u e, refl)) (h u)),
      )

-- A text that is there and not empty.
abbrev pub kept_text : Option String → Option String
kept_text none = none
kept_text (some s) = if is_empty s then none else some s

read_kept : (o : Option String) → read_text o ≡ kept_text o
unfolding read_text
read_kept none = refl
read_kept (some s) = refl

read_new :
    (input : CharacterInput) (id : String) (now : ℕ)
    → read_character (new_character input id now) ≡ record {
      id = id;
      name = input.name;
      server = kept_text input.server;
      class = kept_text input.class;
      created_at = now;
      updated_at = now;
    }
unfolding read_character
read_new input id now = rw (read_kept input.server, read_kept input.class) refl

-- Creating a character under a new identity succeeds, where none of the assignments has an identity
-- that is built from it: the character is then read back with its name, its times, and its server
-- and class, where an empty text is read as none; every template is assigned to it, and no
-- assignment of another character is lost.
pub create_character-IsAssigned :
    (db : Database) (input : CharacterInput) (id : String) (now : ℕ)
    → exists_where (λ (c : AppCharacter). c.id === id) db.characters ≡ false
    → ((t : String) → exists_where (has_id (assignment_id id t)) db.assignments ≡ false)
    → (after : Database) × (create_character db input id now ≡ ok after)
      × (get_character after id
          ≡ some (record {
            id = id;
            name = input.name;
            server = kept_text input.server;
            class = kept_text input.class;
            created_at = now;
            updated_at = now;
          }))
      × All (λ (t : PlannerTemplate). is_assigned after.assignments id t.id ≡ true) db.templates
      × ((c t : String)
          → is_assigned db.assignments c t ≡ true
          → is_assigned after.assignments c t ≡ true)
unfolding create_character insert_row get_character
create_character-IsAssigned db input id now fresh free = (
  record db {
    characters = db.characters ++ new_character input id now ∷ [];
    assignments = assign_templates id now db.templates db.assignments;
  },
  rw fresh refl,
  rw
      (
        one_where-snoc (λ (c : AppCharacter). c.id === id) db.characters
            (new_character input id now) fresh (===_refl id),
        get_character,
      )
      (ap some (read_new input id now)),
  assign_templates-All id now db.templates db.assignments (λ t e. cc (free t)),
  assign_templates-keeps id now db.templates db.assignments,
)

-- Creating a template under a new identity succeeds, where none of the assignments has an identity
-- that is built from it: every character has the template then, and no assignment of another
-- template is lost.
pub create_planner_template-IsAssigned :
    (db : Database) (input : TemplateInput) (id : String) (now : ℕ)
    → exists_where (λ (t : PlannerTemplate). t.id === id) db.templates ≡ false
    → ((c : String) → exists_where (has_id (assignment_id id c)) db.assignments ≡ false)
    → (after : Database) × (create_planner_template db input id now ≡ ok after)
      × (one_where (λ (t : PlannerTemplate). t.id === id) after.templates
          ≡ some (new_template input id now))
      × All (λ (c : AppCharacter). is_assigned after.assignments c.id id ≡ true) db.characters
      × ((c t : String)
          → is_assigned db.assignments c t ≡ true
          → is_assigned after.assignments c t ≡ true)
unfolding create_planner_template insert_row new_template
create_planner_template-IsAssigned db input id now fresh free = (
  record db {
    templates = db.templates ++ new_template input id now ∷ [];
    assignments = assign_characters id now db.characters db.assignments;
  },
  rw fresh refl,
  one_where-snoc (λ (t : PlannerTemplate). t.id === id) db.templates (new_template input id now)
      fresh (===_refl id),
  assign_characters-All id now db.characters db.assignments (λ c e. cc (free c)),
  assign_characters-keeps id now db.characters db.assignments,
)
