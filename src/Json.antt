-- ===== src/Json.antt =====
-- Values of `unknown` type, as the parsers of the program look at them. A number is whole here,
-- or one of those that `Number.isFinite` rejects; the keys of an object are different texts.
use aion2_hub.Prelude.{
  ℕ, suc, List, [], ◌∷◌, String, Bool, true, false, not, ◌==◌, ◌===◌, Option, none, some,
  if◌then◌else◌,
}
use aion2_hub.Prelude.Int.{ℤ, pos, negsuc}
use aion2_hub.Text.{is_empty, show}

mutual
  pub data Json : Type 0 where
    null nan infinite : Json
    bool : Bool → Json
    num : ℤ → Json
    str : String → Json
    arr : Items → Json
    obj : Fields → Json

  pub data Items : Type 0 where
    nil : Items
    cons : Json → Items → Items

  pub data Fields : Type 0 where
    end : Fields
    field : String → Json → Fields → Fields

-- `Boolean(value)`; `undefined` is false.
abbrev pub truthy : Json → Bool
truthy Json.null = false
truthy Json.nan = false
truthy Json.infinite = true
truthy (Json.bool b) = b
truthy (Json.num (pos n)) = not (n == 0)
truthy (Json.num (negsuc n)) = true
truthy (Json.str s) = not (is_empty s)
truthy (Json.arr xs) = true
truthy (Json.obj fs) = true

abbrev pub truthy_or_undefined : Option Json → Bool
truthy_or_undefined none = false
truthy_or_undefined (some v) = truthy v

-- `Boolean(value) && typeof value === "object"`: arrays, too.
abbrev pub is_object : Json → Bool
is_object (Json.obj fs) = true
is_object (Json.arr xs) = true
is_object v = false

unfoldable pub field_of : Fields → String → Option Json
field_of Fields.end key = none
field_of (Fields.field k v fs) key = if k === key then some v else field_of fs key

-- `value.key`: an array has no key that the program reads.
unfoldable pub get : Json → String → Option Json
unfolding field_of
get (Json.obj fs) key = field_of fs key
get v key = none

-- `typeof value.key === "string" ? value.key : none`.
abbrev pub as_text : Option Json → Option String
as_text none = none
as_text (some (Json.str s)) = some s
as_text (some v) = none

-- `typeof v === "number" && Number.isFinite(v)`.
abbrev pub as_number : Option Json → Option ℤ
as_number none = none
as_number (some (Json.num n)) = some n
as_number (some v) = none

-- `Array.isArray(value)`, and the elements.
abbrev pub items_list : Items → List Json
items_list Items.nil = []
items_list (Items.cons v xs) = v ∷ items_list xs

abbrev pub as_array : Option Json → Option (List Json)
as_array none = none
as_array (some (Json.arr xs)) = some (items_list xs)
as_array (some v) = none

abbrev pub fields_list : Fields → List (String × Json)
fields_list Fields.end = []
fields_list (Fields.field k v fs) = (k, v) ∷ fields_list fs

abbrev pub numbered : ℕ → List Json → List (String × Json)
numbered n [] = []
numbered n (v ∷ vs) = (show n, v) ∷ numbered (suc n) vs

-- `Object.entries` of a value that is an object.
abbrev pub entries : Json → List (String × Json)
entries (Json.obj fs) = fields_list fs
entries (Json.arr xs) = numbered 0 (items_list xs)
entries v = []

abbrev pub items : List Json → Items
items [] = Items.nil
items (v ∷ vs) = Items.cons v (items vs)

abbrev pub fields : List (String × Json) → Fields
fields [] = Fields.end
fields ((k, v) ∷ rest) = Fields.field k v (fields rest)

-- What the program takes of `JSON`: `none` is an error of `JSON.parse`.
pub record JsonText : Type 0 where
  pub stringify : Json → String
  pub parse : String → Option Json

unfoldable pub safe_json_parse : JsonText → String → Json
safe_json_parse json text = elim (json.parse text) [ none ↦ Json.null | some v ↦ v ]
