-- ===== src/Database/Json.antt =====
-- JSON values (src/database/types/json-value.type.ts, `Record<string, unknown>` elsewhere). An
-- identifier and an instant keep their kind; in the program they are texts.
use back_end.Prelude.{
  true, false, not, Option, none, some, List, [], ◌∷◌, ◌==◌, ◌===◌, string_Eq, if◌then◌else◌, ℕ,
  String, Bool,
}

mutual
  pub data Json : Type 0 where
    null : Json
    boolean : Bool → Json
    number : ℕ → Json
    text : String → Json
    uuid : ℕ → Json
    instant : ℕ → Json
    array : Items → Json
    object : Fields → Json

  pub data Items : Type 0 where
    nil : Items
    cons : Json → Items → Items

  pub data Fields : Type 0 where
    end : Fields
    field : String → Json → Fields → Fields

-- A property of an object; `undefined` is `none`.
unfoldable pub get_property : String → Fields → Option Json
get_property k Fields.end = none
get_property k (Fields.field l v fs) =
    let rest = get_property k fs in if k === l then some v else rest

abbrev pub items_list : Items → List Json
items_list Items.nil = []
items_list (Items.cons x xs) = x ∷ items_list xs

-- The comparison of `Set.has` and of `===`: primitive values by value; two objects or arrays are
-- never the same one here.
unfoldable pub same_value : Option Json → Option Json → Bool
same_value none none = true
same_value (some Json.null) (some Json.null) = true
same_value (some (Json.boolean true)) (some (Json.boolean b)) = b
same_value (some (Json.boolean false)) (some (Json.boolean b)) = not b
same_value (some (Json.number m)) (some (Json.number n)) = m == n
same_value (some (Json.text s)) (some (Json.text t)) = s === t
same_value (some (Json.uuid m)) (some (Json.uuid n)) = m == n
same_value (some (Json.instant m)) (some (Json.instant n)) = m == n
same_value _ _ = false

-- `Object.keys`
abbrev pub keys : Fields → List String
keys Fields.end = []
keys (Fields.field k _ fs) = k ∷ keys fs

-- `value ?? null` in a payload
abbrev pub or_null : {A : Type 0} → (A → Json) → Option A → Json
or_null f none = Json.null
or_null f (some a) = f a
