-- ===== src/Economy/Search.antt =====
-- The search of `listEconomyItems` of apps/desktop/src/main/storage/domains/economy.ts.
use aion2_hub.Prelude.{
  ◌≡◌, ◌≢◌, refl, String, Bool, false, List, ◌∷◌, Option, none, some, length, arith,
}
use aion2_hub.Prelude.Int.{ℤ}
use aion2_hub.Text.{◌<+>◌, trim, is_empty, codes}
use aion2_hub.Sql.{err, statement_failed}
use aion2_hub.Economy.{EconomyItem, EconomyDb, select_like, escape_like, list_economy_items}

-- SQLite refuses an `ESCAPE` text that is not one character.
abbrev pub Refuses : (String → String → String → Option Bool) → Type 0
Refuses like =
    (pattern escape text : String) → length (codes escape) ≢ 1 → like pattern escape text ≡ none

two_backslashes : length (codes "\\\\") ≡ 2
unfolding codes
two_backslashes = refl

select_like-fails :
    (test : String → Option Bool) (item : EconomyItem) (rest : List EconomyItem)
    → test item.name ≡ none
    → select_like test (item ∷ rest) ≡ err statement_failed
unfolding select_like
select_like-fails test item rest e = rw (e, select_like) refl

-- Where `LIKE` refuses an `ESCAPE` text of more than one character, a search with a text that is
-- not blank fails as soon as there is an item: the statement has two backslashes.
pub list_economy_items-fails :
    (like : String → String → String → Option Bool) (db : EconomyDb) (q : String) (limit : Option ℤ)
    (item : EconomyItem) (rest : List EconomyItem)
    → Refuses like
    → is_empty (trim q) ≡ false
    → db.items ≡ item ∷ rest
    → list_economy_items like db (some q) limit ≡ err statement_failed
unfolding list_economy_items
list_economy_items-fails like db q limit item rest refuses filled e =
    let no : length (codes "\\\\") ≢ 1 = λ p. omega (arith, two_backslashes, p) in
    let pattern = "%" <+> escape_like (trim q) <+> "%" in
    let fails =
      select_like-fails (like pattern "\\\\") item rest (refuses pattern "\\\\" item.name no) in
    rw (filled, e, fails) refl
