-- ===== src/PathObject.antt =====
-- lib/generate-path-object/index.ts: the OpenAPI description of the entry points of a contract.
pub mod Paths
use Prim.Native.String
use tezos_api_gateway.Base.{
  ℕ, suc, String, Bool, true, false, Option, none, some, List, [], ◌∷◌, ◌++◌, map, str_eq,
  if◌then◌else◌,
}
use tezos_api_gateway.Base.Int.{pos}
use tezos_api_gateway.Base.Decimal.{to_string}
use tezos_api_gateway.Value.{
  Value, undef, null, bool, str, arr, obj, Values, nil, cons, Fields, end, field, get, keys,
  of_values,
}
use tezos_api_gateway.Exceptions.{Result, ok, err, type_error, ◌>>=◌}

pub data Action : Type 0 where
  forge send : Action

abbrev pub action_text : Action → String
action_text forge = "forge"
action_text send = "send"

abbrev pub reference : String → Value
reference target = obj (field "$ref" (str target) end)

abbrev typed : String → Value
typed name = obj (field "type" (str name) end)

-- The cases of the `switch` on the name of a type (const/tezos-data-type.ts).
unfoldable pub type_schema : String → Value
type_schema name =
    if str_eq name "address"
    then reference "#/components/schemas/tezos_address"
    else if str_eq name "bytes"
    then (obj (
        field "type" (str "string") (
          field "pattern" (str "^[0-9a-zA-Z]$") (
            field "description" (str "A bytes string")
              (field "example" (str "54686520546f6b656e204f6e65") end)))))
    else if str_eq name "bool"
    then typed "boolean"
    else if str_eq name "int"
    then typed "number"
    else if str_eq name "nat"
    then typed "number"
    else if str_eq name "list"
    then reference "#/components/schemas/flexible_array"
    else if str_eq name "string"
    then typed "string"
    else typed "object"

abbrev field_then : String → Result Value → Result Fields → Result Fields
field_then k (err e) _ = err e
field_then k (ok v) (err e) = err e
field_then k (ok v) (ok fs) = ok (field k v fs)

abbrev names : List String → Value
names ks = arr (of_values (map str ks))

-- A schema of an object with these required properties.
abbrev pub object_schema : List String → Fields → Value
object_schema required properties = obj (
    field "type" (str "object") (
      field "additionalProperties" (bool false)
        (field "required" (names required) (field "properties" (obj properties) end))))

abbrev array_schema : Value → Value
array_schema items = obj (field "type" (str "array") (field "items" items end))

-- `generateSchemaObject` of a property that may be missing.
abbrev or_object : Option (Result Value) → Result Value
or_object none = ok (typed "object")
or_object (some r) = r

abbrev no_property : {A : Type 0} → Result A
no_property = err (type_error "Cannot read properties of null")

unfoldable mutual
  -- `generateSchemaObject` with `handleObjectCase`, `handleMapCase` and `handleListCase`
  pub generate_schema_object : Value → Result Value
  generate_schema_object (str name) = ok (type_schema name)
  generate_schema_object null =
      err (type_error "Cannot use 'in' operator to search for 'map' in null")
  generate_schema_object (obj fs) =
      let mapped = schema_in "map" fs in
      let listed = schema_of "list" fs in
      elim mapped [
        | some schema ↦ schema
        | none ↦ elim listed [
          | some items ↦ (do schema ← items; ok (array_schema schema))
          | none ↦ (do properties ← field_schemas fs; ok (object_schema (keys fs) properties))
        ]
      ]
  generate_schema_object (arr vs) = do
    properties ← indexed_schemas 0 vs
    ok (object_schema (keys properties) properties)
  generate_schema_object _ = ok (typed "object")

  field_schemas : Fields → Result Fields
  field_schemas end = ok end
  field_schemas (field k v fs) = field_then k (generate_schema_object v) (field_schemas fs)

  indexed_schemas : ℕ → Values → Result Fields
  indexed_schemas n nil = ok end
  indexed_schemas n (cons v vs) =
      field_then (to_string (pos n)) (generate_schema_object v) (indexed_schemas (suc n) vs)

  -- The schema of a property, if the object has it.
  schema_of : String → Fields → Option (Result Value)
  schema_of k end = none
  schema_of k (field j v fs) =
      let here = generate_schema_object v in
      let later = schema_of k fs in if str_eq j k then some here else later

  -- The schema of a map by its property, if the object has it.
  schema_in : String → Fields → Option (Result Value)
  schema_in k end = none
  schema_in k (field j v fs) =
      let here = map_schema v in
      let later = schema_in k fs in if str_eq j k then some here else later

  map_schema : Value → Result Value
  map_schema (obj fs) = do
    key ← or_object (schema_of "key" fs)
    value ← or_object (schema_of "value" fs)
    ok (object_schema ("key" ∷ "value" ∷ []) (field "key" key (field "value" value end)))
  map_schema undef = no_property
  map_schema null = no_property
  map_schema _ = ok (
      object_schema ("key" ∷ "value" ∷ [])
        (field "key" (typed "object") (field "value" (typed "object") end)))

abbrev is_unit : Value → Bool
is_unit (str name) = str_eq name "unit"
is_unit _ = false

abbrev cache_parameter : Value
cache_parameter = obj (
    field "name" (str "cache") (
      field "in" (str "query") (
        field "schema" (obj (field "type" (str "boolean") (field "default" (bool true) end))) (
          field "required" (bool false) (
            field "description"
              (str "Specifies if the cache should be used to retrieve the contract") end)))))

-- The property that names the account, and its schema.
abbrev pub account_name : Action → String
account_name forge = "sourceAddress"
account_name send = "secureKeyName"

abbrev account_schema : Action → Value
account_schema forge = reference "#/components/schemas/tezos_address"
account_schema send = obj (
    field "type" (str "string") (
      field "description" (str "The key name which contains public key and perform action sign")
        end))

-- The schema of the body of a request.
unfoldable pub body_schema : Value → Action → Result Value
unfolding generate_schema_object
body_schema schema action =
    if is_unit schema
    then (ok (
        object_schema (account_name action ∷ [])
          (field (account_name action) (account_schema action) end)))
    else (do
      parameters ← generate_schema_object schema
      ok (
          object_schema (account_name action ∷ "parameters" ∷ []) (
            field (account_name action) (account_schema action)
              (field "parameters" parameters end))))

-- `generatePathItemSchema`; `responses` is FORGE_RESPONSE_SCHEMA.
unfoldable pub generate_path_item_schema : Value → Value → Action → Result Value
unfolding body_schema
generate_path_item_schema responses schema action = do
  body ← body_schema schema action
  ok (
      obj (
        field "post"
          (obj (
            field "parameters" (arr (cons cache_parameter nil)) (
              field "requestBody"
                (obj (
                  field "description"
                    (str (
                      String.◌++◌ "Necessary information to "
                        (String.◌++◌ (action_text action) " a transaction")))
                    (field "required" (bool true) (
                      field "content"
                        (obj (field "application/json" (obj (field "schema" body end)) end)) end))))
                (field "responses" responses end))))
          end))

-- The paths of one entry point.
abbrev pub forge_path : String → String
forge_path key = String.◌++◌ "/forge/" key

abbrev pub send_path : String → String
send_path key = String.◌++◌ "/send/" key

abbrev pub async_send_path : String → String
async_send_path key = String.◌++◌ "/async/send/" key

-- `generatePathObject`, from the schema of the contract's parameter on.
unfoldable pub generate_path_object : Value → Fields → Result (List (String × Value))
unfolding generate_path_item_schema
generate_path_object responses end = ok []
generate_path_object responses (field key schema rest) = do
  forging ← generate_path_item_schema responses schema forge
  sending ← generate_path_item_schema responses schema send
  more ← generate_path_object responses rest
  ok ((forge_path key, forging) ∷ (send_path key, sending) ∷ (async_send_path key, sending) ∷ more)
