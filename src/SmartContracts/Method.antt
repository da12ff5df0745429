-- ===== src/SmartContracts/Method.antt =====
-- `getContractMethod` and `getTransferToParams` of lib/smart-contracts/index.ts.
use tezos_api_gateway.Base.{
  String, Bool, true, false, ◌||◌, ◌≡◌, List, [], ◌∷◌, str_eq, eq_refl, ltb, if◌then◌else◌, arith,
}
use tezos_api_gateway.Base.Lists.{length}
use tezos_api_gateway.Base.Int.{pos}
use tezos_api_gateway.Value.{Value, null, bool, num, truthy}
use tezos_api_gateway.Exceptions.{Result, ok, err, ◌>>=◌, type_error}
use tezos_api_gateway.SmartContracts.Token.{Token}
use tezos_api_gateway.SmartContracts.Format.{index, format_entry_point_parameters}

-- Taquito's view of a contract: the token of each entry point, in the order of `Object.keys`, what
-- `parameterSchema.ExtractSchema()` gives, and the call of a method followed by `toTransferParams`.
pub record Contract : Type 0 where
  pub entrypoints : List (String × Token)
  pub schema : Value
  pub call : String → List Value → Result Value

unfoldable pub token_of : String → List (String × Token) → Result Token
token_of name [] = err (type_error "Cannot read properties of undefined (reading 'prim')")
token_of name ((n, t) ∷ rest) = if str_eq n name then ok t else token_of name rest

unfoldable pub first_token : List (String × Token) → Result Token
first_token [] = err (type_error "Cannot read properties of undefined (reading 'prim')")
first_token ((_, t) ∷ _) = ok t

-- What is formatted and called: the token, its schema, and the name of the method.
pub record Target : Type 0 where
  pub token : Token
  pub schema : Value
  pub method : String

unfoldable pub single_target : Contract → String → Result Target
unfolding token_of first_token
single_target contract entry_point = do
  t ←
      (if str_eq entry_point "default"
        then first_token contract.entrypoints
        else token_of entry_point contract.entrypoints)
  ok (record { token = t; schema = contract.schema; method = "default" })

unfoldable pub named_target : Contract → String → Result Target
unfolding token_of index
named_target contract entry_point = do
  t ← token_of entry_point contract.entrypoints
  inner ← index contract.schema entry_point
  ok (record { token = t; schema = inner; method = entry_point })

unfoldable pub target : Contract → String → Result Target
unfolding single_target named_target
target contract entry_point =
    if ltb 1 (length contract.entrypoints)
    then named_target contract entry_point
    else single_target contract entry_point

abbrev pub is_bool : Value → Bool
is_bool (bool _) = true
is_bool _ = false

-- The call for parameters that are falsy and no boolean.
without_params : Contract → String → Value → Result Value
without_params contract entry_point null = contract.call entry_point []
without_params contract entry_point _ = contract.call entry_point (num (pos 0) ∷ [])

with_params : Contract → String → Value → Result Value
unfolding target
with_params contract entry_point params = do
  t ← target contract entry_point
  arguments ← format_entry_point_parameters t.token params false t.schema
  contract.call t.method arguments

unfoldable pub get_contract_method : Contract → String → Value → Result Value
unfolding without_params with_params
get_contract_method contract entry_point params =
    if truthy params || is_bool params
    then with_params contract entry_point params
    else without_params contract entry_point params

-- A contract with one entry point accepts both its name and `default`, for every parameter that is
-- truthy or a boolean.
pub single_entry_point :
    (name : String) (t : Token) (contract : Contract) (params : Value)
    → contract.entrypoints ≡ (name, t) ∷ []
    → (truthy params || is_bool params) ≡ true
    → get_contract_method contract name params ≡ get_contract_method contract "default" params
unfolding get_contract_method
single_entry_point name t contract params one given = ground (arith, eq_refl name)
