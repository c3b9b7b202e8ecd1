-- ===== src/Modules/Loads.antt =====
-- What is loaded once and what again: packages/core/src/resolve.ts.
use aion2_hub.Prelude.{
  ℕ, ◌≡◌, ◌≢◌, refl, ap, sym, ◌∙◌, String, ◌===◌, ===_refl, ===_ne, ===_iff, true, List, Option,
  none, some,
}
use aion2_hub.Sql.Laws.{one_where-snoc}
use aion2_hub.Sql.Keys.{one_where-none, one_where-holds, one_where-delete, one_where-snoc_other}
use aion2_hub.Modules.{
  HubModule, LoadCache, Loading, cached, load_entry, load_found, load_key, load_fails,
  load_module_page, resolve_module_page, is_found,
}

-- The cache after a load holds what the load gave, under its key, and has the other keys as before.
Holds : LoadCache → String → Loading → LoadCache → Type 0
Holds c key l after =
    (n : ℕ) × (l ≡ Loading.promise n)
    × (cached after.entries key ≡ some (key, n))
    × ((other : String) → key ≢ other → cached after.entries other ≡ cached c.entries other)

named :
    (entries : List (String × ℕ)) (key : String) (e : String × ℕ)
    → cached entries key ≡ some e
    → e.0 ≡ key
unfolding cached
named entries key e h =
    (===_iff e.0 key).0 (one_where-holds (λ (f : String × ℕ). f.0 === key) entries h)

load_entry-Holds :
    (o : Option (String × ℕ)) (key : String) (c : LoadCache)
    → cached c.entries key ≡ o
    → Holds c key (load_entry o key c).0 (load_entry o key c).1
unfolding Holds load_entry cached
load_entry-Holds (some e) key c h =
    let same : e ≡ (key, e.1) = ap (λ k. (k, e.1)) (named c.entries key e h) in
    (e.1, refl, h ∙ ap some same, λ other ne. refl)
load_entry-Holds none key c h =
    let p = λ (f : String × ℕ). f.0 === key in
    (
      c.calls,
      refl,
      one_where-snoc p c.entries (key, c.calls) (one_where-none p c.entries h) (===_refl key),
      λ other ne.
          one_where-snoc_other (λ (f : String × ℕ). f.0 === other) c.entries (key, c.calls)
            (===_ne key other ne),
    )

-- A page that is found is loaded once: the load gives a promise, the same load again gives the same
-- promise without a call, and what is cached of pages with another key stays. After the load
-- fails, the next load of the page is a new call.
pub load_module_page-once :
    (registry : List HubModule) (module_id page_id : String) (c : LoadCache)
    → is_found (resolve_module_page registry module_id page_id) ≡ true
    → let key = load_key module_id page_id in
      let (loading, after) = load_module_page registry module_id page_id c in
      (n : ℕ) × (loading ≡ Loading.promise n)
      × (load_module_page registry module_id page_id after ≡ (loading, after))
      × ((other : String) → key ≢ other → cached after.entries other ≡ cached c.entries other)
      × ((load_module_page registry module_id page_id (load_fails key after)).0
          ≡ Loading.promise after.calls)
unfolding load_module_page load_found load_entry load_fails Holds cached
load_module_page-once registry module_id page_id c found =
    let key = load_key module_id page_id in
    let after = (load_entry (cached c.entries key) key c).1 in
    let (n, e, hit, rest) = load_entry-Holds (cached c.entries key) key c refl in
    let gone = one_where-delete (λ (f : String × ℕ). f.0 === key) after.entries in
    rw found (
      n,
      e,
      ap (λ o. load_entry o key after) hit ∙ ap (λ l. (l, after)) (sym e),
      rest,
      ap (λ o. (load_entry o key (load_fails key after)).0) gone,
    )
