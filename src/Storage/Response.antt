-- ===== src/Storage/Response.antt =====
-- lib/storage/generate-storage-response.ts. The entries of a map are those of its `entries()`.
use tezos_api_gateway.Base.{ℕ, suc, String, Bool, true, false, if◌then◌else◌}
use tezos_api_gateway.Base.Int.{pos}
use tezos_api_gateway.Base.Decimal.{to_string}
use tezos_api_gateway.Value.{
  Value, undef, null, bool, num, str, arr, obj, michelson_map, big_map, big_number, Values, nil,
  cons, Fields, end, field, Entries, unset, entry,
}
use tezos_api_gateway.Exceptions.{type_error, Result, ok, err}

-- `typeof v === 'object'`
abbrev pub is_object : Value → Bool
is_object undef = false
is_object (bool b) = false
is_object (num z) = false
is_object (str s) = false
is_object _ = true

-- The entries of a text are its characters.
unfoldable pub characters : ℕ → String → Fields
characters n String.[] = end
characters n (String.◌∷◌ c s) =
    field (to_string (pos n)) (str (String.◌∷◌ c String.[])) (characters (suc n) s)

abbrev big_map_response : String → Value
big_map_response text = obj (field "type" (str "big_map") (field "value" (str text) end))

abbrev pub both_fields : String → Result Value → Result Fields → Result Fields
both_fields k (err e) _ = err e
both_fields k (ok v) (err e) = err e
both_fields k (ok v) (ok fs) = ok (field k v fs)

abbrev both_values : Result Value → Result Values → Result Values
both_values (err e) _ = err e
both_values (ok v) (err e) = err e
both_values (ok v) (ok vs) = ok (cons v vs)

abbrev pub as_object : Result Fields → Result Value
as_object (err e) = err e
as_object (ok fs) = ok (obj fs)

abbrev as_array : Result Values → Result Value
as_array (err e) = err e
as_array (ok vs) = ok (arr vs)

abbrev pub entry_object : Value → Result Value → Result Value
entry_object k (err e) = err e
entry_object k (ok v) = ok (obj (field "key" k (field "value" v end)))

-- `instance_response` is what `generateStorageResponse` makes of an object of a class of a library, by the
-- properties that its library gives it.
module _ (instance_response : Value → Result Value) where
  unfoldable mutual
    -- `convertStorageValueToStorageResponseValue`
    pub convert_value : Value → Result Value
    convert_value (michelson_map es) = as_array (convert_entries es)
    convert_value (big_map text) = ok (big_map_response text)
    convert_value (big_number z) = ok (num z)
    convert_value (arr vs) = as_array (convert_values vs)
    convert_value (obj fs) = as_object (convert_fields fs)
    convert_value undef = ok undef
    convert_value null = ok null
    convert_value (bool b) = ok (bool b)
    convert_value (num z) = ok (num z)
    convert_value (str s) = ok (str s)

    -- `generateStorageResponse`
    pub generate_storage_response : Value → Result Value
    generate_storage_response undef = err (type_error "Cannot convert undefined or null to object")
    generate_storage_response null = err (type_error "Cannot convert undefined or null to object")
    generate_storage_response (bool b) = ok (obj end)
    generate_storage_response (num z) = ok (obj end)
    generate_storage_response (str s) = ok (obj (characters 0 s))
    generate_storage_response (arr vs) = as_object (convert_indexed 0 vs)
    generate_storage_response (obj fs) = as_object (convert_fields fs)
    generate_storage_response (michelson_map es) = instance_response (michelson_map es)
    generate_storage_response (big_map text) = instance_response (big_map text)
    generate_storage_response (big_number z) = instance_response (big_number z)

    convert_values : Values → Result Values
    convert_values nil = ok nil
    convert_values (cons v vs) = both_values (convert_value v) (convert_values vs)

    pub convert_fields : Fields → Result Fields
    convert_fields end = ok end
    convert_fields (field k v fs) = both_fields k (convert_value v) (convert_fields fs)

    convert_indexed : ℕ → Values → Result Fields
    convert_indexed n nil = ok end
    convert_indexed n (cons v vs) =
        both_fields (to_string (pos n)) (convert_value v) (convert_indexed (suc n) vs)

    -- `convertMichelsonMapToArrayObject`
    pub convert_entries : Entries → Result Values
    convert_entries unset = ok nil
    convert_entries (entry k v es) =
        let response = if is_object v then generate_storage_response v else convert_value v in
        both_values (entry_object k response) (convert_entries es)
