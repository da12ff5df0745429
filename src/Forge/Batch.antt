-- ===== src/Forge/Batch.antt =====
-- lib/jobs/forge-operation.ts, `getOperationContentsTransactionWithParametersJson` and its helpers.
use tezos_api_gateway.Base.{ℕ, String, Bool, ◌&&◌, Option, none, some, List, [], ◌∷◌, map, ltb}
use tezos_api_gateway.Base.{if◌then◌else◌}
use tezos_api_gateway.Base.Lists.{length}
use tezos_api_gateway.Base.Int.{ℤ, pos}
use tezos_api_gateway.Base.Decimal.{to_string}
use tezos_api_gateway.Value.{Value, num, str, obj, field, end, truthy}
use tezos_api_gateway.Exceptions.{
  Exn, Result, ok, err, address_not_revealed, type_error, ◌>>=◌, traverse,
}
use tezos_api_gateway.Database.Operations.{NewOperation, new_transaction}
use tezos_api_gateway.SmartContracts.Method.{get_contract_method}
use tezos_api_gateway.Forge.Node.{
  TezosService, Estimate, ForgeOperationParams, TransactionDetails, ParamsWithKind, FakeSigner,
  counter_of, next, number_text, text_or,
}

unfoldable pub create_parameters_json : TransactionDetails → Value
create_parameters_json details = obj (
    field "entrypoint" (str details.entry_point) (
      field "value"
        (obj (
          field details.entry_point
            (if truthy details.entry_point_params then details.entry_point_params else num (pos 0))
            end))
        end))

-- `getATransactionParameters`, paired with the transaction as in `parametersList`.
unfoldable pub transaction_parameters :
    TezosService → Bool → TransactionDetails → Result (TransactionDetails × Value)
transaction_parameters tezos use_cache details = do
  contract ← tezos.contract use_cache details.contract_address
  parameter ← get_contract_method contract details.entry_point details.entry_point_params
  ok (details, parameter)

abbrev pub amount_or_zero : Option ℕ → ℕ
amount_or_zero none = 0
amount_or_zero (some n) = n

abbrev pub params_with_kind : TransactionDetails × Value → ParamsWithKind
params_with_kind (details, parameter) = record {
  to = details.contract_address;
  parameter = parameter;
  amount = amount_or_zero details.amount;
}

unfoldable pub get_estimation_for_node :
    TezosService → FakeSigner → List (TransactionDetails × Value) → Result (List Estimate)
get_estimation_for_node tezos signer list = tezos.estimate_batch signer (map params_with_kind list)

-- The `catch` around the estimation.
abbrev pub unless_tezos_error : {A : Type 0} → String → Result A → Result A
unless_tezos_error source (ok a) = ok a
unless_tezos_error source (err (Exn.tezos_operation_error m)) = err (Exn.tezos_operation_error m)
unless_tezos_error source (err _) = err (address_not_revealed source)

-- `estimations.shift()` and the counter that goes with it. Taquito puts the estimation of a reveal
-- in front.
unfoldable pub skip_reveal : Bool → ℕ → Option ℤ → List Estimate → Option ℤ × List Estimate
unfolding next
skip_reveal reveal count counter [] = (counter, [])
skip_reveal reveal count counter (e ∷ es) =
    if reveal && ltb count (length (e ∷ es)) then (next counter, es) else (counter, e ∷ es)

unfoldable pub operation_contents :
    String → Option ℤ → Estimate → TransactionDetails × Value → NewOperation
unfolding number_text text_or create_parameters_json
operation_contents source counter estimation (details, parameter) =
    new_transaction
      (record {
        destination = details.contract_address;
        parameters = parameter;
        amount = text_or details.amount "0";
        fee = text_or details.fee (to_string (pos estimation.suggested_fee_mutez));
        source = source;
        storage_limit = to_string (pos estimation.storage_limit);
        gas_limit = to_string (pos estimation.gas_limit);
        counter = number_text counter;
      })
      (create_parameters_json details)

-- `estimations.map((estimation, index) => …)` with `++counter` in every call.
unfoldable pub number_contents :
    String
    → Option ℤ
    → List Estimate
    → List (TransactionDetails × Value)
    → Result (List NewOperation)
unfolding next operation_contents
number_contents source counter [] list = ok []
number_contents source counter (e ∷ es) [] =
    err (type_error "Cannot read properties of undefined (reading 'contractAddress')")
number_contents source counter (e ∷ es) (item ∷ list) = do
  rest ← number_contents source (next counter) es list
  ok (operation_contents source (next counter) e item ∷ rest)

abbrev pub batch_signer : ForgeOperationParams → FakeSigner
batch_signer params = record {
  public_key_hash = params.source_address;
  public_key = if params.reveal then params.public_key else some "";
}

unfoldable pub operation_contents_with_parameters_json :
    TezosService → ForgeOperationParams → Result (List NewOperation)
unfolding counter_of transaction_parameters get_estimation_for_node traverse
operation_contents_with_parameters_json tezos params = do
  counter ← counter_of tezos params.source_address
  list ← traverse (transaction_parameters tezos params.use_cache) params.transactions
  estimations ←
      unless_tezos_error params.source_address
        (get_estimation_for_node tezos (batch_signer params) list)
  let (first, rest) = skip_reveal params.reveal (length params.transactions) counter estimations in
      number_contents params.source_address first rest list
