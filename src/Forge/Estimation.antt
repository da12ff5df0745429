-- ===== src/Forge/Estimation.antt =====
-- lib/jobs/estimate-operation.ts
use tezos_api_gateway.Base.{ℕ, String, ◌+◌, ◌/◌, ◌&&◌, Option, List, [], ◌∷◌, ltb}
use tezos_api_gateway.Base.{if◌then◌else◌}
use tezos_api_gateway.Base.Lists.{length}
use tezos_api_gateway.Base.Int.{ℤ}
use tezos_api_gateway.Value.{Value}
use tezos_api_gateway.Exceptions.{
  Result, ok, err, max_operations_per_batch, type_error, ◌>>=◌, traverse,
}
use tezos_api_gateway.Forge.Node.{
  TezosService, Estimate, ForgeOperationParams, TransactionDetails, counter_of, next,
}
use tezos_api_gateway.Forge.Batch.{
  transaction_parameters, get_estimation_for_node, unless_tezos_error, create_parameters_json,
  batch_signer, amount_or_zero,
}
use tezos_api_gateway.Forge.Assembly.{max_operations}

-- What all estimations share (const/interfaces/estimation.ts); a counter that is NaN is `none`.
pub record Costs : Type 0 where
  pub counter : Option ℤ
  pub suggested_fee : ℕ
  pub minimal_fee : ℕ
  pub gas_estimation : ℕ
  pub gas_limit : ℕ
  pub storage_limit : ℕ
  pub storage_and_allocation_fee : ℕ

pub data Estimation : Type 0 where
  reveal_estimation : (source : String) → Option String → Costs → Estimation
  transaction_estimation :
      (destination : String) (parameters json : Value) (amount : ℕ) (source : String)
      → Costs
      → Estimation

-- `Math.round(milligas / 1000)`
unfoldable pub rounded_gas : ℕ → ℕ
rounded_gas milligas = (milligas + 500) / 1000

unfoldable pub costs : Option ℤ → Estimate → Costs
unfolding rounded_gas
costs counter e = record {
  counter = counter;
  suggested_fee = e.suggested_fee_mutez;
  minimal_fee = e.minimal_fee_mutez;
  gas_estimation = rounded_gas e.consumed_milligas;
  gas_limit = e.gas_limit;
  storage_limit = e.storage_limit;
  storage_and_allocation_fee = e.burn_fee_mutez;
}

unfoldable pub transaction_estimations :
    String → Option ℤ → List Estimate → List (TransactionDetails × Value) → Result (List Estimation)
unfolding costs
transaction_estimations source counter [] list = ok []
transaction_estimations source counter (e ∷ es) [] =
    err (type_error "Cannot read properties of undefined (reading 'contractAddress')")
transaction_estimations source counter (e ∷ es) ((details, parameter) ∷ list) = do
  rest ← transaction_estimations source (next counter) es list
  ok (
      transaction_estimation details.contract_address parameter (create_parameters_json details)
        (amount_or_zero details.amount) source (costs (next counter) e)
      ∷ rest)

-- From the estimations of the node to those of the answer; the first is the reveal's where there are
-- more than transactions.
unfoldable pub estimations_of :
    ForgeOperationParams
    → Option ℤ
    → List (TransactionDetails × Value)
    → List Estimate
    → Result (List Estimation)
unfolding transaction_estimations costs
estimations_of params counter list [] = ok []
estimations_of params counter list (e ∷ es) =
    let count = length (e ∷ es) in
    let all = transaction_estimations params.source_address counter (e ∷ es) list in
    let others = transaction_estimations params.source_address (next counter) es list in
    if params.reveal && ltb (length params.transactions) count
    then if ltb max_operations count then err max_operations_per_batch else (do
      rest ← others
      ok (
          reveal_estimation params.source_address params.public_key (costs (next counter) e)
          ∷ rest))
    else all

unfoldable pub estimate_operation : TezosService → ForgeOperationParams → Result (List Estimation)
unfolding estimations_of
estimate_operation tezos params = do
  counter ← counter_of tezos params.source_address
  list ← traverse (transaction_parameters tezos params.use_cache) params.transactions
  estimations ←
      unless_tezos_error params.source_address
        (get_estimation_for_node tezos (batch_signer params) list)
  estimations_of params counter list estimations
