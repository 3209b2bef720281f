-- ===== src/Json.antt =====
-- The values of JSON, as the code writes them with Python's literals, and what stands at a path in one.
use deploy_hub.Prelude.{
  ℕ, zero, suc, String, ◌==◌, Bool, Option, none, some, List, [], ◌∷◌, if◌then◌else◌,
}

mutual
  pub data Json : Type 0 where
    null : Json
    boolean : Bool → Json
    integer : ℕ → Json
    string : String → Json
    array : Items → Json
    object : Fields → Json

  pub data Items : Type 0 where
    no_item : Items
    item : Json → Items → Items

  pub data Fields : Type 0 where
    no_field : Fields
    field : String → Json → Fields → Fields

-- `[...]` and `{...}`.
unfoldable pub items : List Json → Items
items [] = no_item
items (j ∷ js) = item j (items js)

unfoldable pub fields : List (String × Json) → Fields
fields [] = no_field
fields ((k, j) ∷ js) = field k j (fields js)

unfoldable pub arr : List Json → Json
unfolding items
arr js = array (items js)

unfoldable pub obj : List (String × Json) → Json
unfolding fields
obj js = object (fields js)

unfoldable pub item_at : ℕ → Items → Option Json
item_at n no_item = none
item_at zero (item j js) = some j
item_at (suc n) (item j js) = item_at n js

unfoldable pub field_of : String → Fields → Option Json
field_of k no_field = none
field_of k (field l j js) = if k == l then some j else field_of k js

pub data Key : Type 0 where
  name : String → Key
  index : ℕ → Key

-- `j[key]`, where there is one.
unfoldable pub get : Json → Key → Option Json
unfolding item_at field_of
get (object js) (name k) = field_of k js
get (array js) (index n) = item_at n js
get _ _ = none

-- `j[key1][key2]...`.
unfoldable pub at : List Key → Json → Option Json
unfolding get
at [] j = some j
at (k ∷ ks) j = elim (get j k) [ none ↦ none | some i ↦ at ks i ]

unfoldable pub string_in : Option Json → Option String
string_in (some (string s)) = some s
string_in _ = none

-- The items of an array, and none of what is not there.
unfoldable pub list_in : Option Json → Items
list_in (some (array js)) = js
list_in _ = no_item

unfoldable pub list_of : Items → List Json
list_of no_item = []
list_of (item j js) = j ∷ list_of js
