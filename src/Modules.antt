-- ===== src/Modules.antt =====
-- The registry of modules and the loading of their pages and widgets:
-- packages/core/src/module.ts, registry.ts and resolve.ts.
pub mod Loads
use aion2_hub.Prelude.{
  ℕ, suc, List, [], ◌∷◌, ◌++◌, String, Bool, true, false, ◌===◌, Option, none, some, if◌then◌else◌,
}
use aion2_hub.Text.{◌<+>◌}
use aion2_hub.Sql.{one_where, delete_where}

pub record HubPage : Type 0 where
  pub id : String
  pub title : String
  pub href : String

pub record HubWidget : Type 0 where
  pub id : String
  pub title : String

pub record HubModule : Type 0 where
  pub id : String
  pub name : String
  pub version : String
  pub pages : List HubPage
  pub widgets : List HubWidget

-- `moduleById.set`: the entry of a key that is there stays in its place.
unfoldable pub set_module : HubModule → List HubModule → List HubModule
set_module m [] = m ∷ []
set_module m (n ∷ rest) =
    let kept = n ∷ set_module m rest in if n.id === m.id then m ∷ rest else kept

unfoldable pub register_modules : List HubModule → List HubModule → List HubModule
unfolding set_module
register_modules [] registry = registry
register_modules (m ∷ ms) registry = register_modules ms (set_module m registry)

unfoldable pub get_module_by_id : List HubModule → String → Option HubModule
get_module_by_id registry id = one_where (λ (m : HubModule). m.id === id) registry

unfoldable pub find_page : Option HubModule → String → Option (HubModule × HubPage)
find_page none page_id = none
find_page (some m) page_id = elim (one_where (λ (p : HubPage). p.id === page_id) m.pages) [
  | none ↦ none
  | some p ↦ some (m, p)
]

unfoldable pub resolve_module_page : List HubModule → String → String → Option (HubModule × HubPage)
unfolding find_page
resolve_module_page registry module_id page_id =
    find_page (get_module_by_id registry module_id) page_id

unfoldable pub find_widget : Option HubModule → String → Option (HubModule × HubWidget)
find_widget none widget_id = none
find_widget (some m) widget_id =
    elim (one_where (λ (w : HubWidget). w.id === widget_id) m.widgets) [
      | none ↦ none
      | some w ↦ some (m, w)
    ]

unfoldable pub resolve_module_widget :
    List HubModule → String → String → Option (HubModule × HubWidget)
unfolding find_widget
resolve_module_widget registry module_id widget_id =
    find_widget (get_module_by_id registry module_id) widget_id

-- A cache of promises by key. A promise is its number: `calls` counts the calls of `load`.
pub record LoadCache : Type 0 where
  pub entries : List (String × ℕ)
  pub calls : ℕ

-- What a call gives: a promise, or one that is rejected with `not_found`.
pub data Loading : Type 0 where
  rejected : Loading
  promise : ℕ → Loading

unfoldable pub cached : List (String × ℕ) → String → Option (String × ℕ)
cached entries key = one_where (λ (e : String × ℕ). e.0 === key) entries

unfoldable pub load_entry : Option (String × ℕ) → String → LoadCache → Loading × LoadCache
load_entry (some e) key c = (Loading.promise e.1, c)
load_entry none key c = (
  Loading.promise c.calls,
  record { entries = c.entries ++ (key, c.calls) ∷ []; calls = suc c.calls },
)

abbrev pub load_key : String → String → String
load_key module_id part_id = module_id <+> ":" <+> part_id

unfoldable pub load_found : Bool → String → LoadCache → Loading × LoadCache
unfolding load_entry cached
load_found false key c = (Loading.rejected, c)
load_found true key c = load_entry (cached c.entries key) key c

abbrev pub is_found {ℓ} : {A : Type ℓ} → Option A → Bool
is_found none = false
is_found (some a) = true

unfoldable pub load_module_page : List HubModule → String → String → LoadCache → Loading × LoadCache
unfolding load_found
load_module_page registry module_id page_id c =
    load_found (is_found (resolve_module_page registry module_id page_id))
      (load_key module_id page_id) c

unfoldable pub load_module_widget :
    List HubModule → String → String → LoadCache → Loading × LoadCache
unfolding load_found
load_module_widget registry module_id widget_id c =
    load_found (is_found (resolve_module_widget registry module_id widget_id))
      (load_key module_id widget_id) c

-- The `catch` of a load that fails.
unfoldable pub load_fails : String → LoadCache → LoadCache
load_fails key c = record c { entries = delete_where (λ (e : String × ℕ). e.0 === key) c.entries }
