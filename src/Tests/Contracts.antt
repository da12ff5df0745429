-- ===== src/Tests/Contracts.antt =====
-- Tests of lib/smart-contracts/index.ts.
use tezos_api_gateway.Base.{
  ◌≡◌, ◌≢◌, refl, true, false, none, [], ◌∷◌, arith, eq_iff, Bool-cases, str_eq, inl, inr, subst,
}
use tezos_api_gateway.Base.Lists.{All}
use tezos_api_gateway.Base.Int.{pos}
use tezos_api_gateway.Value.{Value, undef, num, str, obj, field, end, get, Fields, keys}
use tezos_api_gateway.Exceptions.{ok}
use tezos_api_gateway.SmartContracts.Token.{Kind, Token, token, Tokens}
use tezos_api_gateway.SmartContracts.Format.{
  index, format_entry_point_parameters, unless_primitive, format_record_parameter, object_keys,
  format_arguments, own_property, format_argument, format_fields, found_or,
}
use tezos_api_gateway.SmartContracts.Order.{SameProperties, record_order, record_complete}
use tezos_api_gateway.SmartContracts.Single.{format_entry_point_parameters-IsSingle}
use tezos_api_gateway.SmartContracts.Method.{Contract, get_contract_method, single_entry_point}
use tezos_api_gateway.Tests.Fixtures.{number, contract}

-- A pair of two numbers, `from` and `to`.
abbrev children : Tokens
children = Tokens.cons (number "from") (Tokens.cons (number "to") Tokens.nil)

abbrev transfer : Token
transfer = token Kind.pair "transfer" "{}" children

abbrev schema : Fields
schema = field "from" (str "int") (field "to" (str "int") end)

abbrev in_order : Fields
in_order = field "from" (num (pos 1)) (field "to" (num (pos 2)) end)

abbrev swapped : Fields
swapped = field "to" (num (pos 2)) (field "from" (num (pos 1)) end)

swapped-SameProperties : SameProperties in_order swapped
unfolding get
swapped-SameProperties name = elim (Bool-cases (str_eq "from" name)) [
  | inl hit ↦
      let same : "from" ≡ name = ground (arith, eq_iff "from" name) in
      subst (λ n. get n in_order ≡ get n swapped) same refl
  | inr miss ↦ ground arith
]

record_order_example :
    format_entry_point_parameters transfer (obj in_order) false (obj schema)
    ≡ format_entry_point_parameters transfer (obj swapped) false (obj schema)
record_order_example =
    record_order "transfer" "{}" children in_order swapped (obj schema) swapped-SameProperties

formatted :
    format_entry_point_parameters transfer (obj in_order) false (obj schema)
    ≡ ok (num (pos 1) ∷ num (pos 2) ∷ [])
unfolding format_entry_point_parameters unless_primitive format_record_parameter object_keys
    format_arguments own_property format_argument index get
formatted = refl

record_complete_example : All (λ name. get name in_order ≢ none) (keys schema)
record_complete_example =
    record_complete "transfer" "{}" children in_order schema (num (pos 1) ∷ num (pos 2) ∷ [])
      formatted

formatted_in_list :
    format_entry_point_parameters transfer (obj in_order) true undef ≡ ok (obj in_order ∷ [])
unfolding format_entry_point_parameters unless_primitive format_record_parameter format_fields
    found_or
formatted_in_list = refl

format_entry_point_parameters-IsSingle_example : (v : Value) × (obj in_order ∷ [] ≡ v ∷ [])
format_entry_point_parameters-IsSingle_example =
    format_entry_point_parameters-IsSingle transfer (obj in_order) undef (obj in_order ∷ [])
      formatted_in_list

abbrev single : Contract
single = record contract { entrypoints = ("mint", number "mint") ∷ [] }

single_entry_point_example :
    get_contract_method single "mint" (num (pos 5))
    ≡ get_contract_method single "default" (num (pos 5))
single_entry_point_example =
    single_entry_point "mint" (number "mint") single (num (pos 5)) refl refl
