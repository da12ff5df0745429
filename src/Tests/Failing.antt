-- ===== src/Tests/Failing.antt =====
-- A forge whose fee exceeds the INT column of the database, and an estimation.
use tezos_api_gateway.Base.{map, ◌⊎◌, String, ◌≡◌, refl, false, some, List, [], ◌∷◌}
use tezos_api_gateway.Base.Int.{◌+ℤ◌}
use tezos_api_gateway.Base.Decimal.{to_string, parse_int}
use tezos_api_gateway.Value.{get}
use tezos_api_gateway.Exceptions.{Result, ok, err, traverse, Exn, database_error}
use tezos_api_gateway.Database.Effect.{World, query, answer}
use tezos_api_gateway.Database.Jobs.{insert_job, new_row}
use tezos_api_gateway.Database.Operations.{
  NewOperation, insert_operations, map_operation_values, insert_rows, rows_of, row_of, column,
  parsed, stringify, all_exist, job_exists,
}
use tezos_api_gateway.Forge.{contents_of, store_batch, forge_operation}
use tezos_api_gateway.Forge.Node.{
  TezosService, ForgeOperationParams, counter_of, next, number_text, text_or,
}
use tezos_api_gateway.Forge.Assembly.{build_batch, add_reveal_op_if_needed, check_batch}
use tezos_api_gateway.Forge.Batch.{
  operation_contents_with_parameters_json, transaction_parameters, get_estimation_for_node,
  skip_reveal, number_contents, operation_contents, create_parameters_json,
}
use tezos_api_gateway.Forge.Estimation.{
  Estimation, costs, rounded_gas, transaction_estimations, estimations_of, estimate_operation,
}
use tezos_api_gateway.Forge.Estimated.{AllAgree, of_transactions, estimate_operation-AllAgree}
use tezos_api_gateway.Forge.Failure.{StoredAtMostJob, forge_operation_fails}
use tezos_api_gateway.SmartContracts.Method.{
  get_contract_method, target, single_target, named_target, token_of,
}
use tezos_api_gateway.SmartContracts.Format.{index, format_entry_point_parameters, unless_primitive}
use tezos_api_gateway.Tests.Fixtures.{tezos, params, world, mint, mint_op, burn_op, estimate}
use tezos_api_gateway.Tests.Forging.{transactions_built}

-- 2 ^ 31 mutez do not fit in the column `amount`.
abbrev rich_params : ForgeOperationParams
rich_params = record params {
  transactions = record mint { amount = some 2147483648 } ∷ [];
  reveal = false;
}

-- A node at which the address is revealed.
abbrev revealed_tezos : TezosService
revealed_tezos = record tezos { estimate_batch = λ signer list. ok (estimate 400 ∷ []) }

refused_world : World
refused_world = (forge_operation revealed_tezos "2022-05-01" rich_params world).1

abbrev refusal : Exn
refusal = database_error "a value or a key is refused"

forge_refused :
    forge_operation revealed_tezos "2022-05-01" rich_params world ≡ (err refusal, refused_world)
unfolding refused_world forge_operation build_batch check_batch add_reveal_op_if_needed
    operation_contents_with_parameters_json counter_of parse_int transaction_parameters
    get_contract_method target single_target named_target token_of index get get_estimation_for_node
    skip_reveal next number_contents operation_contents number_text text_or create_parameters_json
    to_string traverse format_entry_point_parameters unless_primitive ◌+ℤ◌ store_batch insert_job
    new_row insert_operations map_operation_values insert_rows rows_of row_of column parsed
    stringify all_exist job_exists query answer
forge_refused = refl

forge_operation_fails_example :
    (refused_world.broadcast ≡ world.broadcast)
    × ((refused_world.store ≡ world.store)
        ⊎ ((ops : List NewOperation) × (branch bytes : String) × (build_batch revealed_tezos
                rich_params
              ≡ ok ops)
            × (revealed_tezos.forge (map contents_of ops) ≡ ok (branch, bytes))
            × StoredAtMostJob bytes world refused_world))
forge_operation_fails_example =
    forge_operation_fails revealed_tezos "2022-05-01" rich_params world refused_world refusal
      forge_refused

estimations : Result (List Estimation)
estimations = estimate_operation tezos params

abbrev found : Result (List Estimation) → List Estimation
found (ok es) = es
found (err _) = []

estimated : estimate_operation tezos params ≡ ok (found estimations)
unfolding estimations estimate_operation counter_of parse_int transaction_parameters
    get_contract_method target single_target named_target token_of index get get_estimation_for_node
    next create_parameters_json traverse format_entry_point_parameters unless_primitive ◌+ℤ◌
    estimations_of transaction_estimations costs rounded_gas
estimated = refl

estimate_operation-AllAgree_example :
    AllAgree (mint_op ∷ burn_op ∷ []) (of_transactions (found estimations))
estimate_operation-AllAgree_example =
    estimate_operation-AllAgree tezos params (mint_op ∷ burn_op ∷ []) (found estimations)
      transactions_built estimated
