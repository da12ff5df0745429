-- ===== src/SmartContracts/Format.antt =====
-- `formatEntryPointParameters` and the functions that it calls. The source hands the token that
-- `findChildTokenByAnnotation` finds to a recursive call; here `child_format` finds the token and gives
-- its formatter, so that the recursion is on the token. A missing `schema` is `undef`.
use Prim.Native.Char.{code}
use Prim.Native.String.{count}
use tezos_api_gateway.Base.{
  ℕ, zero, suc, String, Bool, true, false, ◌||◌, ◌&&◌, Option, none, some, List, [], ◌∷◌, ◌++◌,
  str_eq, if◌then◌else◌, ◌==◌,
}
use tezos_api_gateway.Base.Lists.{length}
use tezos_api_gateway.Base.Int.{pos}
use tezos_api_gateway.Base.Decimal.{to_string}
use tezos_api_gateway.Value.{
  Value, undef, null, bool, num, str, arr, obj, michelson_map, Fields, end, field, Entries, unset,
  entry, keys, get, values, of_values, truthy,
}
use tezos_api_gateway.Exceptions.{
  Result, ok, err, ◌>>=◌, type_error, invalid_map_structure_params, invalid_parameter_name,
  missing_parameter, unsupported_parameter_schema, invalid_boolean_parameter,
  invalid_variant_object, invalid_parameter,
}
use tezos_api_gateway.SmartContracts.Token.{
  Kind, option, map, list, set, or, pair, other, Token, token, Tokens, is_or, is_pair,
}

-- What a token makes of parameters, of `onlyFormatMaps` and of a schema.
abbrev pub Formatter : Type 0
Formatter = Value → Bool → Value → Result (List Value)

-- `fs[0]`, which is `undefined` for an empty array.
abbrev pub first : List Value → Value
first [] = undef
first (v ∷ _) = v

-- The error of reading a property of `undefined` or `null`.
abbrev pub not_an_object : {A : Type 0} → Result A
not_an_object = err (type_error "Cannot convert undefined or null to object")

indices : ℕ → List Value → List String
indices n [] = []
indices n (_ ∷ vs) = to_string (pos n) ∷ indices (suc n) vs

text_indices : ℕ → ℕ → List String
text_indices n zero = []
text_indices n (suc more) = to_string (pos n) ∷ text_indices (suc n) more

-- `Object.keys(v)`
unfoldable pub object_keys : Value → Result (List String)
unfolding indices text_indices
object_keys undef = not_an_object
object_keys null = not_an_object
object_keys (obj fs) = ok (keys fs)
object_keys (arr vs) = ok (indices 0 (values vs))
object_keys (str s) = ok (text_indices 0 (count s))
object_keys _ = ok []

-- `v[key]` for a key that is no property of arrays, texts and numbers.
unfoldable pub index : Value → String → Result Value
unfolding get
index undef key = not_an_object
index null key = not_an_object
index (obj fs) key = elim (get key fs) [ none ↦ ok undef | some v ↦ ok v ]
index _ key = ok undef

-- `!Array.isArray(params) && typeof params !== 'object'`
abbrev pub is_primitive : Value → Bool
is_primitive undef = true
is_primitive (bool _) = true
is_primitive (num _) = true
is_primitive (str _) = true
is_primitive _ = false

one_of : List ℕ → ℕ → Bool
one_of [] c = false
one_of (d ∷ ds) c = d == c || one_of ds c

-- Whether each character of a text is one of those listed for its place.
spells : List (List ℕ) → String → Bool
spells [] String.[] = true
spells (ds ∷ more) (String.◌∷◌ c s) = one_of ds (code c) && spells more s
spells _ _ = false

-- `s.toUpperCase() === 'TRUE'` and `… === 'FALSE'`: the characters whose upper case is each letter,
-- of which S has three.
unfoldable pub says_true : String → Bool
unfolding spells one_of
says_true =
    spells ((b'T' ∷ b't' ∷ []) ∷ (b'R' ∷ b'r' ∷ []) ∷ (b'U' ∷ b'u' ∷ []) ∷ (b'E' ∷ b'e' ∷ []) ∷ [])

unfoldable pub says_false : String → Bool
unfolding spells one_of
says_false = spells (
    (b'F' ∷ b'f' ∷ [])
    ∷ (b'A' ∷ b'a' ∷ [])
    ∷ (b'L' ∷ b'l' ∷ [])
    ∷ (b'S' ∷ b's' ∷ 0x17f ∷ [])
    ∷ (b'E' ∷ b'e' ∷ [])
    ∷ [])

unfoldable pub format_bool_parameter : Value → Result Bool
unfolding says_true says_false
format_bool_parameter (bool b) = ok b
format_bool_parameter (str s) =
    if says_true s
    then ok true
    else if says_false s
    then ok false
    else err (invalid_boolean_parameter (str s))
format_bool_parameter v = err (invalid_boolean_parameter v)

unfoldable pub format_option_parameter : Formatter → Formatter
format_option_parameter inner null only_maps schema = ok (null ∷ [])
format_option_parameter inner params only_maps schema = inner params only_maps schema

-- An entry of a map parameter: an object whose keys are exactly `key` and `value`, in that order.
unfoldable pub map_entry : Value → Result (Value × Value)
map_entry undef = not_an_object
map_entry null = not_an_object
map_entry (obj (field k key (field v value end))) =
    if str_eq k "key" && str_eq v "value" then ok (key, value) else err invalid_map_structure_params
map_entry _ = err invalid_map_structure_params

-- `schema ? schema.map.value : undefined`
unfoldable pub map_value_schema : Value → Result Value
unfolding index
map_value_schema schema =
    if truthy schema then index schema "map" >>= (λ m. index m "value") else ok undef

module _ (key_format value_format : Formatter) (only_maps : Bool) (schema : Value) where
  unfoldable pub format_entries : List Value → Result Entries
  unfolding map_entry map_value_schema
  format_entries [] = ok unset
  format_entries (param ∷ params) = do
    (key, value) ← map_entry param
    key_schema ← map_value_schema schema
    ks ← key_format key only_maps key_schema
    vs ← value_format value only_maps key_schema
    rest ← format_entries params
    ok (entry (first ks) (first vs) rest)

unfoldable pub format_map_parameter : Formatter → Formatter → Formatter
unfolding format_entries
format_map_parameter key_format value_format (arr params) only_maps schema = do
  es ← format_entries key_format value_format only_maps schema (values params)
  ok (michelson_map es ∷ [])
format_map_parameter key_format value_format _ only_maps schema = err invalid_map_structure_params

unfoldable pub format_items : Formatter → List Value → Result (List Value)
format_items child [] = ok []
format_items child (elt ∷ elts) = do
  vs ← child elt true undef
  rest ← format_items child elts
  ok (vs ++ rest)

unfoldable pub format_list_or_set_parameter : Formatter → Value → Result (List Value)
unfolding format_items
format_list_or_set_parameter child (arr params) = do
  vs ← format_items child (values params)
  ok (arr (of_values vs) ∷ [])
format_list_or_set_parameter child _ = err (invalid_parameter "object" "array")

-- The formatter of the child that an annotation names, if there is one.
abbrev pub ChildFormat : Type 0
ChildFormat = String → Option Formatter

unfoldable pub found_or : Option Formatter → String → Result Formatter
found_or none name = err (invalid_parameter_name name)
found_or (some f) name = ok f

unfoldable pub format_variant : ChildFormat → Fields → Bool → Value → Result (List Value)
unfolding found_or index
format_variant child end only_maps schema = err (invalid_variant_object 0)
format_variant child (field name v end) true schema = do
  f ← found_or (child name) name
  vs ← f v true undef
  ok (obj (field name (first vs) end) ∷ [])
format_variant child (field name v end) false schema = do
  f ← found_or (child name) name
  inner ← index schema name
  vs ← f v false inner
  ok (str name ∷ vs)
format_variant child fs only_maps schema = err (invalid_variant_object (length (keys fs)))

unfoldable pub format_variant_parameter : ChildFormat → Formatter
unfolding format_variant
format_variant_parameter child (arr _) only_maps schema = err (invalid_parameter "array" "object")
format_variant_parameter child (obj fs) only_maps schema = format_variant child fs only_maps schema
format_variant_parameter child null only_maps schema = not_an_object
format_variant_parameter child _ only_maps schema = err (invalid_variant_object 0)

-- A record inside a list stays an object.
unfoldable pub format_fields : ChildFormat → Fields → Result Fields
unfolding found_or
format_fields child end = ok end
format_fields child (field name v fs) = do
  f ← found_or (child name) name
  vs ← f v true undef
  rest ← format_fields child fs
  ok (field name (first vs) rest)

-- What becomes of a parameter for which the token is missing.
unfoldable pub without_token : Value → Result (List Value)
without_token v =
    if is_primitive v
    then ok (v ∷ [])
    else err (type_error "Cannot read properties of undefined (reading 'ExtractSchema')")

unfoldable pub format_argument : Option Formatter → Value → Value → Result (List Value)
unfolding without_token
format_argument none v schema = without_token v
format_argument (some f) v schema = f v false schema

-- `params.hasOwnProperty(name)`, with the value of the property.
unfoldable pub own_property : Value → String → Result Value
unfolding get
own_property null name = not_an_object
own_property (obj fs) name = elim (get name fs) [
  | none ↦ err (missing_parameter name)
  | some v ↦ ok v
]
own_property _ name = err (missing_parameter name)

-- Any other record is the sequence of its fields in the order of the schema.
unfoldable pub format_arguments : ChildFormat → Value → Value → List String → Result (List Value)
format_arguments child params schema [] = ok []
format_arguments child params schema (name ∷ names) = do
  v ← own_property params name
  inner ← index schema name
  vs ← format_argument (child name) v inner
  rest ← format_arguments child params schema names
  ok (vs ++ rest)

unfoldable pub format_record_parameter : ChildFormat → Formatter
unfolding format_fields format_arguments object_keys
format_record_parameter child (arr _) only_maps schema = err (invalid_parameter "array" "object")
format_record_parameter child null true schema = not_an_object
format_record_parameter child (obj fs) true schema = do
  rest ← format_fields child fs
  ok (obj rest ∷ [])
format_record_parameter child params true schema = ok (obj end ∷ [])
format_record_parameter child params false schema = do
  names ← object_keys schema
  format_arguments child params schema names

-- A parameter that is not of the classes above.
unfoldable pub unless_primitive : Value → Result (List Value) → Result (List Value)
unless_primitive v otherwise = if is_primitive v then ok (v ∷ []) else otherwise

unfoldable pub bool_parameter : Value → Result (List Value)
unfolding format_bool_parameter
bool_parameter v = do b ← format_bool_parameter v; ok (bool b ∷ [])

unfoldable pub no_formatter : Formatter
no_formatter v only_maps schema =
    err (type_error "Cannot read properties of undefined (reading 'prim')")

unfoldable mutual
  pub format_entry_point_parameters : Token → Formatter
  format_entry_point_parameters (token option a s args) params only_maps schema =
      format_option_parameter (nth_format zero args) params only_maps schema
  format_entry_point_parameters (token Kind.bool a s args) params only_maps schema =
      bool_parameter params
  format_entry_point_parameters (token map a s args) params only_maps schema =
      unless_primitive params (
        format_map_parameter (nth_format zero args) (nth_format (suc zero) args) params only_maps
          schema)
  format_entry_point_parameters (token list a s args) params only_maps schema =
      unless_primitive params (format_list_or_set_parameter (nth_format zero args) params)
  format_entry_point_parameters (token set a s args) params only_maps schema =
      unless_primitive params (format_list_or_set_parameter (nth_format zero args) params)
  format_entry_point_parameters (token or a s args) params only_maps schema =
      unless_primitive params
        (format_variant_parameter (λ name. child_format name is_or args) params only_maps schema)
  format_entry_point_parameters (token pair a s args) params only_maps schema =
      unless_primitive params
        (format_record_parameter (λ name. child_format name is_pair args) params only_maps schema)
  format_entry_point_parameters (token other a s args) params only_maps schema =
      unless_primitive params (err (unsupported_parameter_schema s))

  -- The formatter of an argument by its place, `token.createToken(token.val.args[n], 0)`.
  pub nth_format : ℕ → Tokens → Formatter
  nth_format n Tokens.nil = no_formatter
  nth_format zero (Tokens.cons t ts) = format_entry_point_parameters t
  nth_format (suc n) (Tokens.cons t ts) = nth_format n ts

  -- The formatter of the token that `find_child` finds.
  pub child_format : String → (Kind → Bool) → Tokens → Option Formatter
  child_format name wanted Tokens.nil = none
  child_format name wanted (Tokens.cons (token kind annot schema args) rest) =
      let below = child_format name wanted args in
      let after = child_format name wanted rest in
      if str_eq annot name
      then some (format_entry_point_parameters (token kind annot schema args))
      else if wanted kind
      then elim below [ some f ↦ some f | none ↦ after ]
      else after
