-- ===== src/Tests/Forging.antt =====
-- Tests of lib/jobs/forge-operation.ts and lib/jobs/estimate-operation.ts.
use tezos_api_gateway.Base.{◌++◌, String, ◌≡◌, refl, false, some, List, [], ◌∷◌, map, arith}
use tezos_api_gateway.Base.Int.{pos, ◌+ℤ◌, ◌-ℤ◌}
use tezos_api_gateway.Base.Decimal.{to_string, parse_int}
use tezos_api_gateway.Exceptions.{ok}
use tezos_api_gateway.Database.Effect.{World, query, answer, hand_over}
use tezos_api_gateway.Injection.{inject_operation, attempt, inject_rows}
use tezos_api_gateway.Injection.Mapping.{map_operations, map_kind, text_of}
use tezos_api_gateway.Injection.Roundtrip.{forged}
use tezos_api_gateway.Forge.Stored.{IsStored, forge_operation-IsStored}
use tezos_api_gateway.Forge.Injected.{inject_operation-forge_operation}
use tezos_api_gateway.Database.Jobs.{
  insert_job, new_row, update_operation_hash, set_where, has_quote, with_hash,
}
use tezos_api_gateway.Database.Operations.{
  insert_operations, map_operation_values, insert_rows, rows_of, row_of, column, parsed, stringify,
  all_exist, job_exists, select_operation, Contents, NewOperation,
}
use tezos_api_gateway.Forge.{
  ForgedJob, forge_operation, store_batch, total_fee, total_gas, sum_texts, contents_of,
}
use tezos_api_gateway.Value.{get}
use tezos_api_gateway.Exceptions.{traverse}
use tezos_api_gateway.Forge.Node.{counter_of, next, number_text, text_or}
use tezos_api_gateway.Forge.Assembly.{build_batch, add_reveal_op_if_needed, check_batch}
use tezos_api_gateway.Forge.Reveal.{estimate_and_build_reveal_operation}
use tezos_api_gateway.Forge.Batch.{
  operation_contents_with_parameters_json, transaction_parameters, get_estimation_for_node,
  skip_reveal, number_contents, operation_contents, create_parameters_json,
}
use tezos_api_gateway.SmartContracts.Method.{
  get_contract_method, target, single_target, named_target, token_of,
}
use tezos_api_gateway.SmartContracts.Format.{index, format_entry_point_parameters, unless_primitive}
use mathlib.Core.List.{Perm}
use tezos_api_gateway.Database.Order.{arrange, insert_at}
use tezos_api_gateway.Forge.Batched.{IsReveal, Holds, build_batch-Holds}
use tezos_api_gateway.Forge.Counters.{NumberedFrom}
use tezos_api_gateway.Tests.Fixtures.{
  tezos, params, world, estimates_reveals, batch, mint_op, burn_op, reveal_op, forged_job, node,
  patch,
}

pub counter_is_41 : counter_of tezos "tz1alice" ≡ ok (some (pos 41))
unfolding counter_of parse_int
counter_is_41 = refl

pub transactions_built :
    operation_contents_with_parameters_json tezos params ≡ ok (mint_op ∷ burn_op ∷ [])
unfolding operation_contents_with_parameters_json counter_of parse_int transaction_parameters
    get_contract_method target single_target named_target token_of index get get_estimation_for_node
    skip_reveal next number_contents operation_contents number_text text_or create_parameters_json
    to_string traverse format_entry_point_parameters unless_primitive ◌+ℤ◌
transactions_built = refl

reveals_added : add_reveal_op_if_needed tezos params ≡ ok (reveal_op ∷ [])
unfolding add_reveal_op_if_needed estimate_and_build_reveal_operation counter_of parse_int next
    number_text text_or to_string ◌+ℤ◌
reveals_added = refl

pub batch_built : build_batch tezos params ≡ ok batch
unfolding build_batch check_batch
batch_built = ground (arith, reveals_added, transactions_built)

build_batch-Holds_example :
    (reveals transactions : List NewOperation) × (batch ≡ reveals ++ transactions)
    × IsReveal tezos params reveals
    × Holds tezos params params.transactions transactions
    × NumberedFrom (pos 41) batch
build_batch-Holds_example =
    build_batch-Holds tezos params (pos 41) batch counter_is_41 estimates_reveals batch_built

unfoldable pub forged_world : World
forged_world = (store_batch "2022-05-01" params batch ("BLock", "6b006c00") world).1

abbrev pub receipt : ForgedJob
receipt = record { job = forged_job; fee = some (pos 1200); gas = some (pos 3000) }

batch_stored :
    store_batch "2022-05-01" params batch ("BLock", "6b006c00") world ≡ (ok receipt, forged_world)
unfolding store_batch insert_job new_row insert_operations map_operation_values insert_rows rows_of
    row_of column parsed parse_int stringify all_exist job_exists query answer total_fee total_gas
    sum_texts ◌+ℤ◌ ◌-ℤ◌ forged_world
batch_stored = refl

pub forge_runs : forge_operation tezos "2022-05-01" params world ≡ (ok receipt, forged_world)
unfolding forge_operation
forge_runs = rw batch_built batch_stored

forge_operation-IsStored_example : IsStored tezos params world forged_world receipt
forge_operation-IsStored_example =
    forge_operation-IsStored tezos "2022-05-01" params world forged_world (pos 41) receipt
      counter_is_41 refl forge_runs

injected_world : World
injected_world = (inject_operation node patch forged_world).1

injection_runs : inject_operation node patch forged_world ≡ (ok tt, injected_world)
unfolding injected_world inject_operation attempt inject_rows select_operation arrange insert_at
    query answer hand_over update_operation_hash set_where has_quote map_operations map_kind text_of
    to_string traverse forged_world store_batch insert_job new_row insert_operations
    map_operation_values insert_rows rows_of row_of column parsed parse_int stringify all_exist
    job_exists
injection_runs = refl

pub hash_is_plain :
    (hash : String) → node.inject patch.signed_transaction ≡ ok hash → has_quote hash ≡ false
unfolding has_quote
hash_is_plain hash e = let same : hash ≡ "ooHash" = ground arith in rw same refl

inject_operation-forge_operation_example :
    (ops : List NewOperation) × (contents : List Contents) × (branch bytes hash : String)
    × (build_batch tezos params ≡ ok ops)
    × (tezos.forge (map contents_of ops) ≡ ok (branch, bytes))
    × Perm contents (map forged ops)
    × (node.preapply (some branch) contents patch.signature ≡ ok tt)
    × (node.inject patch.signed_transaction ≡ ok hash)
    × (injected_world.store.jobs ≡ set_where 1 (with_hash hash) (forged_job ∷ []))
inject_operation-forge_operation_example =
    inject_operation-forge_operation tezos node "2022-05-01" params patch world forged_world
      injected_world (pos 41) receipt counter_is_41 refl hash_is_plain refl forge_runs
      injection_runs
