-- ===== src/SmartContracts/Single.antt =====
-- Inside a list, where `onlyFormatMaps` is set, a parameter is formatted into exactly one argument, so
-- that the `[0]` of the source drops nothing.
use tezos_api_gateway.Base.{◌≡◌, true, zero, suc, Bool-cases, List, [], ◌∷◌, arith, inl, inr}
use tezos_api_gateway.Value.{
  Value, undef, null, bool, obj, arr, michelson_map, end, field, values, of_values,
}
use tezos_api_gateway.Exceptions.{Result, ok, err, Exn, ◌>>=◌}
use tezos_api_gateway.SmartContracts.Token.{
  Kind, option, map, list, set, or, pair, other, Token, token, Tokens,
}
use tezos_api_gateway.SmartContracts.Format.{
  Formatter, ChildFormat, format_option_parameter, format_map_parameter,
  format_list_or_set_parameter, first, found_or, format_fields, format_items, format_entries,
  format_bool_parameter, format_variant_parameter, format_record_parameter, bool_parameter,
  unless_primitive, is_primitive, no_formatter, format_entry_point_parameters, nth_format,
}

abbrev pub IsOne : Result (List Value) → Type 0
IsOne r = (vs : List Value) → r ≡ ok vs → (v : Value) × (vs ≡ v ∷ [])

abbrev pub IsSingle : Formatter → Type 0
IsSingle f = (params schema : Value) → IsOne (f params true schema)

singleton-IsOne : (v : Value) → IsOne (ok (v ∷ []))
singleton-IsOne v vs e = (v, ground arith)

err-IsOne : (x : Exn) → IsOne (err x)
err-IsOne x vs e = cc

>>=-IsOne :
    {A : Type 0} (m : Result A) (k : A → Result (List Value))
    → ((a : A) → IsOne (k a))
    → IsOne (m >>= k)
>>=-IsOne (ok a) k h = h a
>>=-IsOne (err x) k h = err-IsOne x

option-IsSingle : (inner : Formatter) → IsSingle inner → IsSingle (format_option_parameter inner)
unfolding format_option_parameter
option-IsSingle inner h null schema = singleton-IsOne null
option-IsSingle inner h params schema = h params schema

bool-IsOne : (params : Value) → IsOne (bool_parameter params)
unfolding bool_parameter
bool-IsOne params = >>=-IsOne (format_bool_parameter params) _ (λ b. singleton-IsOne (bool b))

unless_primitive-IsOne :
    (params : Value) (r : Result (List Value)) → IsOne r → IsOne (unless_primitive params r)
unfolding unless_primitive
unless_primitive-IsOne params r h vs e = elim (Bool-cases (is_primitive params)) [
  | inl primitive ↦ (params, ground arith)
  | inr object ↦ h vs (ground arith)
]

map-IsSingle : (k v : Formatter) → IsSingle (format_map_parameter k v)
unfolding format_map_parameter
map-IsSingle k v (arr params) schema =
    >>=-IsOne (format_entries k v true schema (values params)) _
      (λ es. singleton-IsOne (michelson_map es))
map-IsSingle k v params schema = err-IsOne _

list-IsOne :
    (child : Formatter) (params : Value) → IsOne (format_list_or_set_parameter child params)
unfolding format_list_or_set_parameter
list-IsOne child (arr params) =
    >>=-IsOne (format_items child (values params)) _ (λ vs. singleton-IsOne (arr (of_values vs)))
list-IsOne child params = err-IsOne _

variant-IsSingle : (child : ChildFormat) → IsSingle (format_variant_parameter child)
unfolding format_variant_parameter
variant-IsSingle child (obj (field name v end)) schema =
    >>=-IsOne (found_or (child name) name) _
      (λ f. >>=-IsOne (f v true undef) _ (λ vs. singleton-IsOne (obj (field name (first vs) end))))
variant-IsSingle child params schema = err-IsOne _

record-IsSingle : (child : ChildFormat) → IsSingle (format_record_parameter child)
unfolding format_record_parameter
record-IsSingle child (obj fs) schema =
    >>=-IsOne (format_fields child fs) _ (λ rest. singleton-IsOne (obj rest))
record-IsSingle child (arr vs) schema = err-IsOne _
record-IsSingle child null schema = err-IsOne _
record-IsSingle child params schema = singleton-IsOne (obj end)

mutual
  unfolding format_entry_point_parameters no_formatter

  format-IsSingle : (t : Token) → IsSingle (format_entry_point_parameters t)
  format-IsSingle (token option a s args) =
      option-IsSingle (nth_format zero args) (nth-IsSingle args)
  format-IsSingle (token Kind.bool a s args) = λ params schema. bool-IsOne params
  format-IsSingle (token map a s args) = λ params schema.
      unless_primitive-IsOne params _
        (map-IsSingle (nth_format zero args) (nth_format (suc zero) args) params schema)
  format-IsSingle (token list a s args) =
      λ params schema. unless_primitive-IsOne params _ (list-IsOne (nth_format zero args) params)
  format-IsSingle (token set a s args) =
      λ params schema. unless_primitive-IsOne params _ (list-IsOne (nth_format zero args) params)
  format-IsSingle (token or a s args) =
      λ params schema. unless_primitive-IsOne params _ (variant-IsSingle _ params schema)
  format-IsSingle (token pair a s args) =
      λ params schema. unless_primitive-IsOne params _ (record-IsSingle _ params schema)
  format-IsSingle (token other a s args) =
      λ params schema. unless_primitive-IsOne params _ (err-IsOne _)

  nth-IsSingle : (args : Tokens) → IsSingle (nth_format zero args)
  nth-IsSingle Tokens.nil = λ params schema. err-IsOne _
  nth-IsSingle (Tokens.cons t ts) = format-IsSingle t

-- Whatever the token, the parameters and the schema, a call with `onlyFormatMaps` set that returns gives
-- exactly one argument.
pub format_entry_point_parameters-IsSingle :
    (t : Token) (params schema : Value) (vs : List Value)
    → format_entry_point_parameters t params true schema ≡ ok vs
    → (v : Value) × (vs ≡ v ∷ [])
format_entry_point_parameters-IsSingle t = format-IsSingle t
