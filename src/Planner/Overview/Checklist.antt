-- ===== src/Planner/Overview/Checklist.antt =====
-- The daily and weekly lists of the overview and the completions behind them.
use aion2_hub.Prelude.{
  ℕ, ◌≡◌, refl, inl, inr, String, ◌===◌, ===_iff, ===_comm, sym, ◌∙◌, Bool, true, false, ◌&&◌,
  Bool-cases, List, [], ◌∷◌, ◌++◌, Option, map, if◌then◌else◌, arith,
}
use aion2_hub.Sql.{ok, exists_where, delete_where, select_where}
use aion2_hub.Sql.Laws.{exists-delete, exists-snoc, exists_congr, exists-or}
use aion2_hub.Planner.{PlannerTemplate, TemplateType, PlannerCompletion, Database, resolve_date}
use aion2_hub.Planner.Progress.{
  CompletionInput, is_completion, insert_completion, complete, set_planner_completion,
  new_completion,
}
use aion2_hub.Planner.Overview.{Sorted, add_row, is_done, sort_rows, checklist_item, charge_item}

abbrev pub same_key : CompletionInput → String → String → String → Bool
same_key i c p t = i.character_id === c && i.template_id === t && i.period_key === p

is_done-is_completion :
    (db : Database) (c p t : String)
    → is_done db c p t ≡ exists_where (is_completion c t p) db.completions
unfolding is_done
is_done-is_completion db c p t = exists_congr _ _ db.completions (λ r. ground arith)

-- Two completions of one key have the same other keys.
same_key_iff :
    (r : PlannerCompletion) (i : CompletionInput) (c p t : String)
    → same_key i c p t ≡ true
    → is_completion i.character_id i.template_id i.period_key r ≡ is_completion c t p r
same_key_iff r i c p t h =
    ground (arith, ===_iff i.character_id c, ===_iff i.template_id t, ===_iff i.period_key p)

same_key_ne :
    (r : PlannerCompletion) (i : CompletionInput) (c p t : String)
    → same_key i c p t ≡ false
    → is_completion c t p r ≡ true
    → is_completion i.character_id i.template_id i.period_key r ≡ false
same_key_ne r i c p t h k = ground (
  arith,
  ===_iff r.character_id c,
  ===_iff r.template_id t,
  ===_iff r.period_key p,
  ===_comm i.character_id r.character_id,
  ===_comm i.template_id r.template_id,
  ===_comm i.period_key r.period_key,
)

-- Leaving out the rows with `q` leaves no row with `p`, if `p` is `q`.
exists-delete_same {ℓ} :
    {A : Type ℓ} (p q : A → Bool) (xs : List A)
    → ((x : A) → q x ≡ p x)
    → exists_where p (delete_where q xs) ≡ false
unfolding exists_where delete_where select_where
exists-delete_same p q [] h = refl
exists-delete_same p q (x ∷ xs) h = ground (arith, h x, exists-delete_same p q xs h)

module _ (db : Database) (input : CompletionInput) (c p t : String) where
  -- Whether the key is done after the rows with `input`'s key are left out.
  delete_done :
      exists_where (is_completion c t p) (
        delete_where
          (is_completion input.character_id input.template_id input.period_key)
          db.completions)
      ≡ (if same_key input c p t then false else exists_where (is_completion c t p) db.completions)
  delete_done = elim (Bool-cases (same_key input c p t)) [
    | inl e ↦ rw e (exists-delete_same _ _ db.completions (λ r. same_key_iff r input c p t e))
    | inr e ↦ rw e (exists-delete _ _ db.completions (λ r k. same_key_ne r input c p t e k))
  ]

  -- Whether it is done after a row with `input`'s key is put in.
  insert_done :
      (r : PlannerCompletion)
      → r.character_id ≡ input.character_id
      → r.template_id ≡ input.template_id
      → r.period_key ≡ input.period_key
      → exists_where (is_completion c t p) (db.completions ++ r ∷ [])
        ≡ (if same_key input c p t then true else exists_where (is_completion c t p) db.completions)
  insert_done r e f g = ground (arith, exists-snoc (is_completion c t p) db.completions r, e, f, g)

  -- Or where there is one already.
  found_done :
      exists_where
          (is_completion input.character_id input.template_id input.period_key)
          db.completions
        ≡ true
      → exists_where (is_completion c t p) db.completions
        ≡ (if same_key input c p t then true else exists_where (is_completion c t p) db.completions)
  found_done h = elim (Bool-cases (same_key input c p t)) [
    | inl e ↦ rw e (sym (exists_congr _ _ db.completions (λ r. same_key_iff r input c p t e)) ∙ h)
    | inr e ↦ rw e refl
  ]

-- After a set of completions the key of `input` is done just if `b`, and no other has changed.
abbrev IsSetTo : Database → CompletionInput → Bool → List PlannerCompletion → Type 0
IsSetTo db input b rows =
    (c p t : String)
    → exists_where (is_completion c t p) rows
      ≡ (if same_key input c p t then b else exists_where (is_completion c t p) db.completions)

complete-false :
    (db : Database) (input : CompletionInput) (at : ℕ) (id : String)
    → (after : Database) × (complete db input at id false ≡ ok after)
      × IsSetTo db input false after.completions
unfolding complete
complete-false db input at id = (_, refl, delete_done db input)

complete-true :
    (db : Database) (input : CompletionInput) (at : ℕ) (id : String)
    → exists_where (λ (r : PlannerCompletion). r.id === id) db.completions ≡ false
    → (after : Database) × (complete db input at id true ≡ ok after)
      × IsSetTo db input true after.completions
unfolding complete insert_completion
complete-true db input at id fresh =
    let row : PlannerCompletion = new_completion input at id in
    let p = is_completion input.character_id input.template_id input.period_key in
    elim (Bool-cases (exists_where p db.completions)) [
      | inl e ↦ (
        db,
        rw (exists-or (λ (r : PlannerCompletion). r.id === id) p db.completions, fresh, e) refl,
        λ c' p' t'. found_done db input c' p' t' e,
      )
      | inr e ↦ (
        record db { completions = db.completions ++ row ∷ [] },
        rw (exists-or (λ (r : PlannerCompletion). r.id === id) p db.completions, fresh, e) refl,
        λ c' p' t'. insert_done db input c' p' t' row refl refl refl,
      )
    ]

complete-IsSetTo :
    (db : Database) (input : CompletionInput) (at : ℕ) (id : String) (b : Bool)
    → exists_where (λ (r : PlannerCompletion). r.id === id) db.completions ≡ false
    → (after : Database) × (complete db input at id b ≡ ok after)
      × IsSetTo db input b after.completions
complete-IsSetTo db input at id true fresh = complete-true db input at id fresh
complete-IsSetTo db input at id false fresh = complete-false db input at id

-- Setting a completion with a new identity succeeds, and sets this one entry: the template is done for the character in the period just
-- if `completed` is set, whether or not it was done before, and what is done for any other
-- character, template or period stays as it is.
pub set_planner_completion-is_done :
    (parse : String → Option ℕ) (db : Database) (input : CompletionInput) (clock : ℕ) (id : String)
    → exists_where (λ (r : PlannerCompletion). r.id === id) db.completions ≡ false
    → (after : Database) × (set_planner_completion parse db input clock id ≡ ok after)
      × ((c p t : String)
          → is_done after c p t
            ≡ (if same_key input c p t then input.completed else is_done db c p t))
unfolding set_planner_completion
set_planner_completion-is_done parse db input clock id fresh =
    let at = resolve_date parse input.at_iso clock in
    let (after, r, h) = complete-IsSetTo db input at id input.completed fresh in
    (
      after,
      r,
      λ c p t. rw (is_done-is_completion after c p t, is_done-is_completion db c p t) (h c p t),
    )

abbrev is_type : TemplateType → TemplateType → Bool
is_type TemplateType.daily TemplateType.daily = true
is_type TemplateType.weekly TemplateType.weekly = true
is_type TemplateType.charge TemplateType.charge = true
is_type a b = false

abbrev pub of_type : TemplateType → PlannerTemplate → Bool
of_type a t = is_type a t.type

-- What a row adds to the three lists.
add_row_cases :
    (db : Database) (c d w : String) (now : ℕ) (t : PlannerTemplate) (a : TemplateType) (s : Sorted)
    → (add_row db c d w now t a s ≡ (record {
      daily =
          if is_type TemplateType.daily a
          then checklist_item t (is_done db c d t.id) ∷ s.daily
          else s.daily;
      weekly =
          if is_type TemplateType.weekly a
          then checklist_item t (is_done db c w t.id) ∷ s.weekly
          else s.weekly;
      charges =
          if is_type TemplateType.charge a then charge_item db c now t ∷ s.charges else s.charges;
    }))
unfolding add_row
add_row_cases db c d w now t TemplateType.daily s = refl
add_row_cases db c d w now t TemplateType.weekly s = refl
add_row_cases db c d w now t TemplateType.charge s = refl

map_cons_if {ℓ κ} :
    {A : Type ℓ} {B : Type κ} (f : A → B) (b : Bool) (x : A) (xs : List A)
    → map f (if b then x ∷ xs else xs) ≡ (if b then f x ∷ map f xs else map f xs)
map_cons_if f true x xs = refl
map_cons_if f false x xs = refl

-- The loop over the assigned templates sorts them by their type and keeps their order: the daily
-- list has exactly the daily ones, each with whether it is done in the day, the weekly list the
-- weekly ones, with whether they are done in the week, and the third list the charges.
pub sort_rows-select :
    (db : Database) (c d w : String) (now : ℕ) (ts : List PlannerTemplate)
    → ((sort_rows db c d w now ts).daily
        ≡ map
            (λ (t : PlannerTemplate). checklist_item t (is_done db c d t.id))
            (select_where (of_type TemplateType.daily) ts))
      × ((sort_rows db c d w now ts).weekly
          ≡ map
              (λ (t : PlannerTemplate). checklist_item t (is_done db c w t.id))
              (select_where (of_type TemplateType.weekly) ts))
      × ((sort_rows db c d w now ts).charges
          ≡ map (charge_item db c now) (select_where (of_type TemplateType.charge) ts))
unfolding sort_rows select_where
sort_rows-select db c d w now [] = (refl, refl, refl)
sort_rows-select db c d w now (t ∷ ts) =
    let s = sort_rows db c d w now ts in
    let (hd, hw, hc) = sort_rows-select db c d w now ts in
    (
      simp (add_row_cases db c d w now t t.type s, hd, map_cons_if),
      simp (add_row_cases db c d w now t t.type s, hw, map_cons_if),
      simp (add_row_cases db c d w now t t.type s, hc, map_cons_if),
    )
