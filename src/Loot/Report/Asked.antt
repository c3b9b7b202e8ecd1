-- ===== src/Loot/Report/Asked.antt =====
-- The items whose prices the weekly report of apps/desktop/src/main/storage/domains/loot.ts asks for.
use aion2_hub.Prelude.{
  ◌≡◌, refl, ap, ◌∙◌, inl, inr, String, Bool, false, not, ◌&&◌, ◌===◌, ===_iff, Bool-cases, List,
  [], ◌∷◌, ◌++◌, Option, none, some, arith,
}
use aion2_hub.Text.{is_empty}
use aion2_hub.Sql.{exists_where, delete_where}
use aion2_hub.Sql.Laws.{exists-append, exists-select, exists_congr}
use aion2_hub.Loot.{LootRunCostKind, LootRunDrop, LootRunCost}
use aion2_hub.Loot.Report.{unique_texts, id_list, drop_item_ids, cost_item_id, cost_item_ids}
use aion2_hub.Loot.Report.Latest.{is_item, is_item_cost, is_named, is_text, exists-unique_texts}

exists_and :
    (b : Bool) (p : String → Bool) (xs : List String)
    → exists_where (λ x. b && p x) xs ≡ (b && exists_where p xs)
unfolding exists_where
exists_and b p [] = ground arith
exists_and b p (x ∷ xs) = ground (arith, exists_and b p xs)

same_emptiness : (id x : String) → (x === id && not (is_empty x)) ≡ (not (is_empty id) && x === id)
same_emptiness id x = elim (Bool-cases (x === id)) [
  | inl e ↦ let f = ap is_empty ((===_iff x id).0 e) in rw (e, f) (ground arith)
  | inr e ↦ rw e (ground arith)
]

-- What is asked for without the empty texts.
exists-filled :
    (id : String) (xs : List String)
    → exists_where (is_text id) (delete_where is_empty xs)
      ≡ (not (is_empty id) && exists_where (is_text id) xs)
unfolding delete_where
exists-filled id xs =
    exists-select (is_text id) (λ x. not (is_empty x)) xs
    ∙ exists_congr _ _ xs (same_emptiness id)
    ∙ exists_and (not (is_empty id)) (is_text id) xs

module _ (id : String) (h : is_empty id ≡ false) where
  exists-id_list : (o : Option String) → exists_where (is_text id) (id_list o) ≡ is_item id o
  unfolding exists_where
  exists-id_list none = refl
  exists-id_list (some i) = elim (Bool-cases (is_empty i)) [
    | inl e ↦ elim (Bool-cases (i === id)) [
      | inl f ↦ let g = ap is_empty ((===_iff i id).0 f) in absurd cc
      | inr f ↦ rw (e, f) refl
    ]
    | inr e ↦ rw e (ground arith)
  ]

  exists-drop_item_ids :
      (drops : List LootRunDrop)
      → exists_where (is_text id) (drop_item_ids drops)
        ≡ exists_where (λ (d : LootRunDrop). is_item id d.item_id) drops
  unfolding exists_where drop_item_ids
  exists-drop_item_ids [] = refl
  exists-drop_item_ids (d ∷ drops) =
      exists-append (is_text id) (id_list d.item_id) (drop_item_ids drops)
      ∙ rw (exists-id_list d.item_id, exists-drop_item_ids drops) refl

  exists-cost_item_id :
      (kind : LootRunCostKind) (o : Option String)
      → exists_where
          (is_text id)
          (elim kind [ LootRunCostKind.kinah ↦ [] | LootRunCostKind.item ↦ id_list o ])
        ≡ elim kind [ LootRunCostKind.kinah ↦ false | LootRunCostKind.item ↦ is_item id o ]
  unfolding exists_where
  exists-cost_item_id LootRunCostKind.kinah o = refl
  exists-cost_item_id LootRunCostKind.item o = exists-id_list o

  exists-cost_item_ids :
      (costs : List LootRunCost)
      → exists_where (is_text id) (cost_item_ids costs) ≡ exists_where (is_item_cost id) costs
  unfolding exists_where cost_item_ids
  exists-cost_item_ids [] = refl
  exists-cost_item_ids (c ∷ costs) =
      exists-append (is_text id) (cost_item_id c) (cost_item_ids costs)
      ∙ rw (exists-cost_item_id c.kind c.item_id, exists-cost_item_ids costs) refl

-- The items that prices are asked for.
pub asked-is_named :
    (drops : List LootRunDrop) (costs : List LootRunCost) (id : String)
    → exists_where
        (is_text id)
        (delete_where is_empty (unique_texts (drop_item_ids drops ++ cost_item_ids costs) []))
      ≡ is_named drops costs id
unfolding exists_where
asked-is_named drops costs id =
    let asked = drop_item_ids drops ++ cost_item_ids costs in
    exists-filled id (unique_texts asked []) ∙ elim (Bool-cases (is_empty id)) [
      | inl e ↦ rw e (ground arith)
      | inr e ↦
          ap (λ b. not (is_empty id) && b)
            (exists-unique_texts id asked []
              ∙ exists-append (is_text id) (drop_item_ids drops) (cost_item_ids costs)
              ∙ rw (exists-drop_item_ids id e drops, exists-cost_item_ids id e costs) refl)
    ]
