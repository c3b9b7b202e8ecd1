-- ===== src/Loot/Report/Latest.antt =====
-- The prices that the weekly report of apps/desktop/src/main/storage/domains/loot.ts looks up.
use Prim.Native.String.{compare}
use text.Mathlib.Text.{is_le}
use aion2_hub.Prelude.{
  ℕ, ◌≡◌, refl, ◌∙◌, subst, inl, inr, String, Bool, true, false, not, ◌&&◌, ◌||◌, ◌===◌, ===_iff,
  Bool-cases, List, [], ◌∷◌, ◌++◌, Option, none, some, Option-cases, if◌then◌else◌, arith,
}
use aion2_hub.Text.{trim, is_empty}
use aion2_hub.Sql.{exists_where, one_where, select_where, order_by}
use aion2_hub.Sql.Laws.{exists-snoc, one_where-snoc}
use aion2_hub.Sql.Keys.{one_where-snoc_other}
use aion2_hub.Economy.{EconomyPrice}
use aion2_hub.Economy.Watches.{first_prices}
use aion2_hub.Loot.{LootRunCostKind, LootRunDrop, LootRunCost, LootDb}
use aion2_hub.Loot.Report.{Prices, price_pair, add_text, unique_texts}

-- Recorded later; of two recorded at one time, created later.
abbrev pub newer : EconomyPrice → EconomyPrice → Bool
newer a b =
    if a.recorded_at === b.recorded_at
    then is_le (compare b.created_at a.created_at)
    else is_le (compare b.recorded_at a.recorded_at)

abbrev pub is_item : String → Option String → Bool
is_item id none = false
is_item id (some i) = i === id

abbrev pub is_item_cost : String → LootRunCost → Bool
is_item_cost id c = elim c.kind [
  | LootRunCostKind.kinah ↦ false
  | LootRunCostKind.item ↦ is_item id c.item_id
]

-- Is an item in the drops or in the costs?
abbrev pub is_named : List LootRunDrop → List LootRunCost → String → Bool
is_named drops costs id =
    not (is_empty id)
    && (exists_where (λ (d : LootRunDrop). is_item id d.item_id) drops
        || exists_where (is_item_cost id) costs)

abbrev pub price_in : Option EconomyPrice → Option ℕ
price_in none = none
price_in (some p) = some p.price

-- The latest price of an item on a server, for the items that are in the drops or the costs.
abbrev pub latest_price :
    LootDb → Option String → List LootRunDrop → List LootRunCost → String → Option ℕ
latest_price db none drops costs id = none
latest_price db (some server) drops costs id =
    if is_empty server
    then none
    else price_in (
        one_where (λ (p : EconomyPrice). p.item_id === id)
          (order_by newer (
            select_where
              (λ (p : EconomyPrice). p.server === trim server && is_named drops costs p.item_id)
              db.economy.prices)))

pair_absent :
    (id : String) (out : Prices)
    → exists_where (λ (e : String × ℕ). e.0 === id) out ≡ false
    → one_where (price_pair id) out ≡ none
unfolding exists_where one_where
pair_absent id [] e = refl
pair_absent id (x ∷ out) e = ground (arith, pair_absent id out, e)

pair_there :
    (id : String) (out : Prices)
    → exists_where (λ (e : String × ℕ). e.0 === id) out ≡ true
    → (x : String × ℕ) × (one_where (price_pair id) out ≡ some x)
unfolding exists_where one_where
pair_there id [] e = cc
pair_there id (x ∷ out) e = elim (Bool-cases (x.0 === id)) [
  | inl f ↦ (x, rw f refl)
  | inr f ↦ let (y, g) = pair_there id out (ground (arith, e, f)) in (y, rw f g)
]

abbrev pub found : Option (String × ℕ) → Option ℕ → Option ℕ
found none o = o
found (some e) o = some e.1

abbrev pub read_price : Option (String × ℕ) → Option ℕ
read_price none = none
read_price (some e) = some e.1

-- The price that is taken of an item is its first one.
pub first_prices-first :
    (ps : List EconomyPrice) (out : Prices) (id : String)
    → read_price (one_where (price_pair id) (first_prices ps out))
      ≡ found
          (one_where (price_pair id) out)
          (price_in (one_where (λ (p : EconomyPrice). p.item_id === id) ps))
unfolding first_prices one_where
first_prices-first [] out id = elim (Option-cases (one_where (price_pair id) out)) [
  | inl e ↦ rw e refl
  | inr (x, e) ↦ rw e refl
]
first_prices-first (p ∷ ps) out id =
    elim (Bool-cases (exists_where (λ (e : String × ℕ). e.0 === p.item_id) out)) [
      | inl there ↦ elim (Bool-cases (p.item_id === id)) [
        | inl same ↦
            let (x, e) = pair_there id out (
              subst (λ k. exists_where (λ (e : String × ℕ). e.0 === k) out ≡ true)
                ((===_iff p.item_id id).0 same) there) in
            rw there (first_prices-first ps out id ∙ rw e refl)
        | inr other ↦ rw (there, other) (first_prices-first ps out id)
      ]
      | inr absent ↦ elim (Bool-cases (p.item_id === id)) [
        | inl same ↦
            let missing =
              subst (λ k. exists_where (λ (e : String × ℕ). e.0 === k) out ≡ false)
                ((===_iff p.item_id id).0 same) absent in
            rw absent (
              first_prices-first ps (out ++ (p.item_id, p.price) ∷ []) id
              ∙ rw
                  (
                    one_where-snoc (price_pair id) out (p.item_id, p.price) missing same,
                    pair_absent id out missing,
                    same,
                  )
                  refl)
        | inr other ↦ rw absent (
            first_prices-first ps (out ++ (p.item_id, p.price) ∷ []) id
            ∙ rw (one_where-snoc_other (price_pair id) out (p.item_id, p.price) other, other) refl)
      ]
    ]

abbrev pub is_text : String → String → Bool
is_text id s = s === id

exists-add_text :
    (id s : String) (out : List String)
    → exists_where (is_text id) (add_text s out) ≡ (exists_where (is_text id) out || s === id)
unfolding add_text
exists-add_text id s out = elim (Bool-cases (exists_where (λ t. t === s) out)) [
  | inl e ↦ elim (Bool-cases (s === id)) [
    | inl f ↦ rw e (
        ground
          (arith, f, subst (λ k. exists_where (λ t. t === k) out ≡ true) ((===_iff s id).0 f) e))
    | inr f ↦ rw e (ground (arith, f))
  ]
  | inr e ↦ rw e (exists-snoc (is_text id) out s)
]

pub exists-unique_texts :
    (id : String) (xs out : List String)
    → exists_where (is_text id) (unique_texts xs out)
      ≡ (exists_where (is_text id) out || exists_where (is_text id) xs)
unfolding unique_texts exists_where
exists-unique_texts id [] out = ground arith
exists-unique_texts id (x ∷ xs) out =
    ground (arith, exists-unique_texts id xs (add_text x out), exists-add_text id x out)
