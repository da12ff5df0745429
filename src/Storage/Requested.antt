-- ===== src/Storage/Requested.antt =====
-- lib/storage/convert-storage.ts: the fields of a storage that a request names.
use tezos_api_gateway.Base.{
  ℕ, String, Bool, true, false, Option, List, [], ◌∷◌, is_empty, if◌then◌else◌,
}
use tezos_api_gateway.Value.{
  Value, num, str, arr, obj, michelson_map, big_map, big_number, Values, nil, cons, end, field,
  Entries, truthy,
}
use tezos_api_gateway.Exceptions.{Exn, Result, ok, err, ◌>>=◌}
use tezos_api_gateway.SmartContracts.Format.{index}
use tezos_api_gateway.Storage.{from_pairs}
use tezos_api_gateway.Storage.Response.{
  is_object, convert_value, generate_storage_response, entry_object,
}
use tezos_api_gateway.Storage.Attempts.{try_get_from_map}

-- const/interfaces/contract-storage-request-datafield.ts. Of an object the code reads the first
-- entry; `blank` is an object without entries.
mutual
  pub data DataField : Type 0 where
    by_name : String → DataField
    by_map : String → DeepFields → DataField
    blank : DataField

  pub data DataFields : Type 0 where
    no_fields : DataFields
    data_field : DataField → DataFields → DataFields

  pub data DeepFields : Type 0 where
    no_keys : DeepFields
    key_only : Value → DeepFields → DeepFields
    key_with : Value → DataFields → DeepFields → DeepFields

-- What the code asks of its libraries: lodash's `has` and `get`, Taquito's maps, where the n-th call of
-- `get` of a map of the chain has an answer of its own, and the status of an exception.
pub record Libraries : Type 0 where
  pub has : Value → String → Bool
  pub path : Value → String → Value
  pub lookup : Entries → Value → Value
  pub ask : String → Value → ℕ → Result Value
  pub status : Exn → Option ℕ
  pub instance_response : Value → Result Value

abbrev pub error_object : String → Value
error_object text = obj (field "error" (str text) end)

abbrev pub keyed_error : Value → Value
keyed_error key =
    obj (field "key" key (field "error" (str "The current map does not contain this key") end))

abbrev is_blank : DataField → Bool
is_blank (by_name name) = is_empty name
is_blank (by_map name keys) = false
is_blank blank = true

abbrev pub pairs_then :
    Result (String × Value) → Result (List (String × Value)) → Result (List (String × Value))
pairs_then (err e) _ = err e
pairs_then (ok pair) (err e) = err e
pairs_then (ok pair) (ok pairs) = ok (pair ∷ pairs)

abbrev values_then : Result Value → Result Values → Result Values
values_then (err e) _ = err e
values_then (ok v) (err e) = err e
values_then (ok v) (ok vs) = ok (cons v vs)

abbrev pub paired : String → Result Value → Result (String × Value)
paired name (err e) = err e
paired name (ok v) = ok (name, v)

abbrev pub as_storage : Result (List (String × Value)) → Result Value
as_storage (err e) = err e
as_storage (ok pairs) = ok (obj (from_pairs pairs))

abbrev missing : String
missing = "This data field does not exist in the contract storage"

abbrev no_map : String
no_map =
    "This data field does not have type MichelsonMap or BigMap, use simple string to access to the properties"

module _ (lib : Libraries) where
  -- What a key of a map stands for.
  unfoldable pub map_value : Value → Value → Result Value
  map_value (michelson_map es) key = ok (lib.lookup es key)
  map_value (big_map text) key = (try_get_from_map lib.status (lib.ask text key) 3 0).0
  map_value _ key = ok Value.undef

  -- A value of a map, where no fields of it are named.
  unfoldable pub whole_value : Value → Result Value
  whole_value (big_number z) = ok (num z)
  whole_value v = if is_object v then generate_storage_response lib.instance_response v else ok v

  -- `key ↦ f(value)`, or the error of a key that the map does not have.
  abbrev deep_entry : Value → Result Value → (Value → Result Value) → Result Value
  deep_entry key (err e) f = err e
  deep_entry key (ok v) f = if truthy v then entry_object key (f v) else ok (keyed_error key)

  -- A field by its name.
  unfoldable pub named_field : String → Value → Result (String × Value)
  named_field name storage =
      if lib.has storage name
      then paired name (convert_value lib.instance_response (lib.path storage name))
      else ok (name, error_object missing)

  abbrev as_array : Result Values → Result Value
  as_array (err e) = err e
  as_array (ok vs) = ok (arr vs)

  -- A field that must be a map, with what becomes of the map.
  unfoldable pub map_field : String → (Value → Result Values) → Value → Result (String × Value)
  map_field name f storage = do
    v ← index storage name
    if truthy v
        then (elim v [
          | michelson_map es ↦ paired name (as_array (f (michelson_map es)))
          | big_map text ↦ paired name (as_array (f (big_map text)))
          | _ ↦ ok (name, error_object no_map)
        ])
        else ok (name, error_object missing)

  unfoldable mutual
    -- `convertStorage`, up to `_.fromPairs`
    pub convert_all : DataFields → Value → Result (List (String × Value))
    convert_all no_fields storage = ok []
    convert_all (data_field (by_name name) rest) storage =
        let others = convert_all rest storage in
        if is_empty name then others else pairs_then (named_field name storage) others
    convert_all (data_field (by_map name keys) rest) storage =
        pairs_then (map_field name (deep_all keys) storage) (convert_all rest storage)
    convert_all (data_field blank rest) storage = convert_all rest storage

    -- `convertDeepLayerDataFieldToStorageResponseValue`
    pub deep_all : DeepFields → Value → Result Values
    deep_all no_keys map = ok nil
    deep_all (key_only key rest) map =
        values_then (deep_entry key (map_value map key) whole_value) (deep_all rest map)
    deep_all (key_with key names rest) map =
        values_then (deep_entry key (map_value map key) (λ v. as_storage (convert_all names v)))
          (deep_all rest map)

  -- `convertStorage`
  unfoldable pub convert_storage : DataFields → Value → Result Value
  unfolding convert_all from_pairs
  convert_storage names storage = as_storage (convert_all names storage)
