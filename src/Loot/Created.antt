-- ===== src/Loot/Created.antt =====
-- What a new run holds: `createLootRun` and `getLootRun` of
-- apps/desktop/src/main/storage/domains/loot.ts.
use mathlib.Core.List.{map-append, append-nil, append_assoc}
use aion2_hub.Prelude.{
  ℕ, suc, ◌≡◌, refl, sym, ap, subst, ◌∙◌, inl, inr, String, ◌===◌, ===_refl, ===_iff, ◌==◌,
  Bool-cases, List, [], ◌∷◌, ◌++◌, map, Option, none, some, if◌then◌else◌,
}
use aion2_hub.Prelude.Sort.{All}
use aion2_hub.Text.{trim, is_empty}
use aion2_hub.Text.Trims.{trim-trim}
use aion2_hub.Sql.{
  Result, ok, err, Result-cases, constraint_failed, bad_request, one_where, select_where,
}
use aion2_hub.Sql.Laws.{insert_row_cases, All-snoc}
use aion2_hub.Sql.Appends.{select-snoc_hit}
use aion2_hub.Sql.Keys.{one_where-holds}
use aion2_hub.Economy.Upserts.{has_name}
use aion2_hub.Economy.{
  EconomyDb, EconomyItem, trimmed, same_item, new_item, upsert_found, upsert_economy_item_by_name,
}
use aion2_hub.Economy.Prices.{floor_or_zero}
use aion2_hub.Loot.{LootRunCostKind, LootRun, LootRunDrop, LootRunCost, LootDb, drop_of, cost_of}
use aion2_hub.Loot.Runs.{
  DropInput, CostInput, EntryIds, Outcome, then_do, insert_drop, insert_cost, with_item, new_drop,
  add_drop, add_drops, kinah_cost, item_cost, trimmed_or_empty, add_cost_of, add_costs,
}

-- What a drop says, and what a cost says.
abbrev pub DropView : Type 0
DropView = String × ℕ × Option String

abbrev pub drop_view : LootRunDrop → DropView
drop_view d = (d.item_name, d.qty, d.note)

abbrev pub CostView : Type 0
CostView = LootRunCostKind × Option String × ℕ × ℕ × Option String

abbrev pub cost_view : LootRunCost → CostView
cost_view c = (c.kind, c.item_name, c.qty, c.kinah, c.note)

-- The entries that count: a name that is not blank, and a whole part above zero.
abbrev pub kept_drop : DropInput → List DropView
kept_drop d =
    if is_empty (trim d.item_name)
    then []
    else if floor_or_zero d.qty == 0
    then []
    else (trim d.item_name, floor_or_zero d.qty, trimmed d.note) ∷ []

abbrev pub kept_drops : List DropInput → List DropView
kept_drops [] = []
kept_drops (d ∷ ds) = kept_drop d ++ kept_drops ds

abbrev pub kept_cost : Option LootRunCostKind → CostInput → List CostView
kept_cost none c = []
kept_cost (some LootRunCostKind.kinah) c =
    if floor_or_zero c.kinah == 0
    then []
    else (LootRunCostKind.kinah, none, 0, floor_or_zero c.kinah, trimmed c.note) ∷ []
kept_cost (some LootRunCostKind.item) c =
    if is_empty (trimmed_or_empty c.item_name)
    then []
    else if floor_or_zero c.qty == 0
    then []
    else (
      LootRunCostKind.item,
      some (trimmed_or_empty c.item_name),
      floor_or_zero c.qty,
      0,
      trimmed c.note,
    )
      ∷ []

abbrev pub kept_costs : List CostInput → List CostView
kept_costs [] = []
kept_costs (c ∷ cs) = kept_cost c.kind c ++ kept_costs cs

-- What holds of the database that statements leave, if none throws.
abbrev pub AfterOk {ℓ} : (LootDb → Type ℓ) → Outcome → Type ℓ
AfterOk P (ok u, db) = P db
AfterOk P (err e, db) = Unit

pub AfterOk-then {ℓ κ} :
    (P : LootDb → Type ℓ) (Q : LootDb → Type κ) (o : Outcome) (k : LootDb → Outcome)
    → AfterOk P o
    → ((db : LootDb) → P db → AfterOk Q (k db))
    → AfterOk Q (then_do o k)
AfterOk-then P Q (ok u, db) k p h = h db p
AfterOk-then P Q (err e, db) k p h = tt

-- The item that an upsert gives has the trimmed name.
pub AfterOk-map {ℓ κ} :
    (P : LootDb → Type ℓ) (Q : LootDb → Type κ) (o : Outcome)
    → ((db : LootDb) → P db → Q db)
    → AfterOk P o
    → AfterOk Q o
AfterOk-map P Q (ok u, db) h p = h db p
AfterOk-map P Q (err e, db) h p = tt

abbrev result_name : String → Result (EconomyItem × EconomyDb) → String
result_name other (ok (i, db)) = i.name
result_name other (err e) = other

upsert_found-name :
    (db after : EconomyDb) (o : Option EconomyItem) (name id now : String) (i : EconomyItem)
    → one_where (has_name name) db.items ≡ o
    → upsert_found db o name none none id now ≡ ok (i, after)
    → i.name ≡ name
unfolding upsert_found
upsert_found-name db after none name id now i e f =
    elim (insert_row_cases (same_item id name) (new_item id name none none now) db.items) [
      | inl g ↦
          let bad : ◌≡◌ {A = Result (EconomyItem × EconomyDb)} (err constraint_failed)
              (ok (i, after)) =
            rw g at f in
          cc
      | inr (_, g) ↦
          let given : ◌≡◌ {A = Result (EconomyItem × EconomyDb)}
              (ok (
                new_item id name none none now,
                record db { items = db.items ++ new_item id name none none now ∷ [] },
              ))
              (ok (i, after)) =
            rw g at f in
          let same : new_item id name none none now ≡ i = cc in
          sym (ap (λ (j : EconomyItem). j.name) same)
    ]
upsert_found-name db after (some x) name id now i e f =
    sym (ap (result_name name) f)
    ∙ (===_iff x.name name).0 (one_where-holds (has_name name) db.items e)

-- The item that an upsert gives has the trimmed name.
named_item :
    (db after : EconomyDb) (name id now : String) (i : EconomyItem)
    → upsert_economy_item_by_name db name none none id now ≡ ok (i, after)
    → i.name ≡ trim name
unfolding upsert_economy_item_by_name trimmed
named_item db after name id now i e = elim (Bool-cases (is_empty (trim name))) [
  | inl h ↦
      let bad : ◌≡◌ {A = Result (EconomyItem × EconomyDb)} (err bad_request) (ok (i, after)) =
        rw h at e in
      cc
  | inr h ↦
      upsert_found-name db after (one_where (has_name (trim name)) db.items) (trim name) id now i
        refl (rw h at e)
]

trimmed_or_empty_whole : (o : Option String) → trim (trimmed_or_empty o) ≡ trimmed_or_empty o
unfolding trim
trimmed_or_empty_whole none = refl
trimmed_or_empty_whole (some s) = trim-trim s

module _ (run now : String) (row : LootRun) where
  -- The run is there with these drops and costs, all of the time `now`.
  pub record Holds (ds : List DropView) (cs : List CostView) (db : LootDb) : Type 0 where
    pub run_there : one_where (λ (r : LootRun). r.id === run) db.runs ≡ some row
    pub drop_times :
        All (λ (d : LootRunDrop). d.created_at ≡ now) (select_where (drop_of run) db.drops)
    pub drop_views : map drop_view (select_where (drop_of run) db.drops) ≡ ds
    pub cost_times :
        All (λ (c : LootRunCost). c.created_at ≡ now) (select_where (cost_of run) db.costs)
    pub cost_views : map cost_view (select_where (cost_of run) db.costs) ≡ cs

  insert_drop-Holds :
      (d : LootRunDrop) (ds : List DropView) (cs : List CostView) (db : LootDb)
      → d.run_id ≡ run
      → d.created_at ≡ now
      → Holds ds cs db
      → AfterOk (Holds (ds ++ drop_view d ∷ []) cs) (insert_drop d db)
  unfolding insert_drop
  insert_drop-Holds d ds cs db of_run at h =
      elim (insert_row_cases (λ (x : LootRunDrop). x.id === d.id) d db.drops) [
        | inl e ↦ rw e tt
        | inr (_, e) ↦
            let added = select-snoc_hit (drop_of run) db.drops d (rw of_run (===_refl run)) in
            rw e (record {
              run_there = h.run_there;
              drop_times = rw added (All-snoc _ _ d h.drop_times at);
              drop_views = rw (added, map-append, h.drop_views) refl;
              cost_times = h.cost_times;
              cost_views = h.cost_views;
            })
      ]

  insert_cost-Holds :
      (c : LootRunCost) (ds : List DropView) (cs : List CostView) (db : LootDb)
      → c.run_id ≡ run
      → c.created_at ≡ now
      → Holds ds cs db
      → AfterOk (Holds ds (cs ++ cost_view c ∷ [])) (insert_cost c db)
  unfolding insert_cost
  insert_cost-Holds c ds cs db of_run at h =
      elim (insert_row_cases (λ (x : LootRunCost). x.id === c.id) c db.costs) [
        | inl e ↦ rw e tt
        | inr (_, e) ↦
            let added = select-snoc_hit (cost_of run) db.costs c (rw of_run (===_refl run)) in
            rw e (record {
              run_there = h.run_there;
              drop_times = h.drop_times;
              drop_views = h.drop_views;
              cost_times = rw added (All-snoc _ _ c h.cost_times at);
              cost_views = rw (added, map-append, h.cost_views) refl;
            })
      ]

  Holds-economy :
      (ds : List DropView) (cs : List CostView) (db : LootDb) (economy : EconomyDb)
      → Holds ds cs db
      → Holds ds cs (record db { economy = economy })
  Holds-economy ds cs db economy h = record {
    run_there = h.run_there;
    drop_times = h.drop_times;
    drop_views = h.drop_views;
    cost_times = h.cost_times;
    cost_views = h.cost_views;
  }

  -- A step that puts the item in by its trimmed name first.
  with_item-Holds :
      (name id at : String) (k : EconomyItem → LootDb → Outcome) (ds : List DropView)
      (cs : List CostView) (ds' : List DropView) (cs' : List CostView) (db : LootDb)
      → ((i : EconomyItem) (db' : LootDb)
          → i.name ≡ name
          → Holds ds cs db'
          → AfterOk (Holds ds' cs') (k i db'))
      → trim name ≡ name
      → Holds ds cs db
      → AfterOk (Holds ds' cs') (with_item name id at k db)
  unfolding with_item
  with_item-Holds name id at k ds cs ds' cs' db step whole h =
      elim (Result-cases (upsert_economy_item_by_name db.economy name none none id at)) [
        | inl (_, e) ↦ rw e tt
        | inr ((i, economy), e) ↦ rw e (
            step i (record db { economy = economy })
              (named_item db.economy economy name id at i e ∙ whole)
              (Holds-economy ds cs db economy h))
      ]

  module _ (ids : EntryIds) where
    add_drop-Holds :
        (d : DropInput) (ds : List DropView) (cs : List CostView) (db : LootDb)
        → Holds ds cs db
        → AfterOk (Holds (ds ++ kept_drop d) cs) (add_drop ids run now d db)
    unfolding add_drop
    add_drop-Holds d ds cs db h = elim (Bool-cases (is_empty (trim d.item_name))) [
      | inl e ↦ rw (e, append-nil ds) h
      | inr e ↦ elim (Bool-cases (floor_or_zero d.qty == 0)) [
        | inl f ↦ rw (e, f, append-nil ds) h
        | inr f ↦
            rw (e, f)
              (with_item-Holds (trim d.item_name) ids.item ids.now
                (λ i. insert_drop (new_drop ids run i (floor_or_zero d.qty) (trimmed d.note) now))
                ds cs _ cs db
                (λ i db' named h'.
                  let row = new_drop ids run i (floor_or_zero d.qty) (trimmed d.note) now in
                  subst
                    (λ (n : String).
                      AfterOk (Holds (ds ++ (n, floor_or_zero d.qty, trimmed d.note) ∷ []) cs)
                        (insert_drop row db'))
                    named (insert_drop-Holds row ds cs db' refl refl h'))
                (trim-trim d.item_name) h)
      ]
    ]

    add_cost-Holds :
        (kind : Option LootRunCostKind) (c : CostInput) (ds : List DropView) (cs : List CostView)
        (db : LootDb)
        → Holds ds cs db
        → AfterOk (Holds ds (cs ++ kept_cost kind c)) (add_cost_of kind ids run now c db)
    unfolding add_cost_of
    add_cost-Holds none c ds cs db h = rw (append-nil cs) h
    add_cost-Holds (some LootRunCostKind.kinah) c ds cs db h =
        elim (Bool-cases (floor_or_zero c.kinah == 0)) [
          | inl f ↦ rw (f, append-nil cs) h
          | inr f ↦ rw f (
              insert_cost-Holds (kinah_cost ids run (floor_or_zero c.kinah) (trimmed c.note) now) ds
                cs db refl refl h)
        ]
    add_cost-Holds (some LootRunCostKind.item) c ds cs db h =
        let name = trimmed_or_empty c.item_name in
        elim (Bool-cases (is_empty name)) [
          | inl e ↦ rw (e, append-nil cs) h
          | inr e ↦ elim (Bool-cases (floor_or_zero c.qty == 0)) [
            | inl f ↦ rw (e, f, append-nil cs) h
            | inr f ↦
                rw (e, f)
                  (with_item-Holds name ids.item ids.now
                    (λ i.
                      insert_cost (item_cost ids run i (floor_or_zero c.qty) (trimmed c.note) now))
                    ds cs ds _ db
                    (λ i db' named h'.
                      let row = item_cost ids run i (floor_or_zero c.qty) (trimmed c.note) now in
                      subst
                        (λ (n : String).
                          AfterOk
                            (Holds ds (
                              cs
                              ++ (
                                LootRunCostKind.item,
                                some n,
                                floor_or_zero c.qty,
                                0,
                                trimmed c.note,
                              )
                                ∷ []))
                            (insert_cost row db'))
                        named (insert_cost-Holds row ds cs db' refl refl h'))
                    (trimmed_or_empty_whole c.item_name) h)
          ]
        ]

  module _ (fresh : ℕ → EntryIds) where
    pub add_drops-Holds :
        (n : ℕ) (inputs : List DropInput) (ds : List DropView) (cs : List CostView) (db : LootDb)
        → Holds ds cs db
        → AfterOk (Holds (ds ++ kept_drops inputs) cs) (add_drops fresh run now n inputs db)
    unfolding add_drops
    add_drops-Holds n [] ds cs db h = rw (append-nil ds) h
    add_drops-Holds n (d ∷ inputs) ds cs db h =
        rw (← append_assoc ds (kept_drop d) (kept_drops inputs)) (
          AfterOk-then (Holds (ds ++ kept_drop d) cs) _ (add_drop (fresh n) run now d db)
            (add_drops fresh run now (suc n) inputs) (add_drop-Holds (fresh n) d ds cs db h)
            (λ db' h'. add_drops-Holds (suc n) inputs (ds ++ kept_drop d) cs db' h'))

    pub add_costs-Holds :
        (n : ℕ) (inputs : List CostInput) (ds : List DropView) (cs : List CostView) (db : LootDb)
        → Holds ds cs db
        → AfterOk (Holds ds (cs ++ kept_costs inputs)) (add_costs fresh run now n inputs db)
    unfolding add_costs
    add_costs-Holds n [] ds cs db h = rw (append-nil cs) h
    add_costs-Holds n (c ∷ inputs) ds cs db h =
        rw (← append_assoc cs (kept_cost c.kind c) (kept_costs inputs)) (
          AfterOk-then (Holds ds (cs ++ kept_cost c.kind c)) _
            (add_cost_of c.kind (fresh n) run now c db) (add_costs fresh run now (suc n) inputs)
            (add_cost-Holds (fresh n) c.kind c ds cs db h)
            (λ db' h'. add_costs-Holds (suc n) inputs ds (cs ++ kept_cost c.kind c) db' h'))
