-- ===== src/Forge/Assembly.antt =====
-- lib/jobs/forge-operation.ts, the operations of a batch: `addRevealOpIfNeeded`, the bound on the
-- batch, and the transactions.
use tezos_api_gateway.Base.{ℕ, true, false, ◌&&◌, none, some, List, [], ◌∷◌, ◌++◌}
use tezos_api_gateway.Base.{ltb, ◌==◌, if◌then◌else◌}
use tezos_api_gateway.Base.Lists.{length}
use tezos_api_gateway.Exceptions.{Exn, max_operations_per_batch, Result, ok, err, ◌>>=◌, ◌>>◌}
use tezos_api_gateway.Database.Operations.{NewOperation}
use tezos_api_gateway.Forge.Node.{TezosService, ForgeOperationParams}
use tezos_api_gateway.Forge.Reveal.{estimate_and_build_reveal_operation}
use tezos_api_gateway.Forge.Batch.{operation_contents_with_parameters_json}

-- config/index.ts
abbrev pub max_operations : ℕ
max_operations = 5

-- The reveal, unless the address is revealed already.
abbrev pub continue_if_revealed : Result NewOperation → Result (List NewOperation)
continue_if_revealed (ok op) = ok (op ∷ [])
continue_if_revealed (err (Exn.address_already_revealed _)) = ok []
continue_if_revealed (err e) = err e

-- `addRevealOpIfNeeded`; the source's two lists hold the same operation.
unfoldable pub add_reveal_op_if_needed :
    TezosService → ForgeOperationParams → Result (List NewOperation)
add_reveal_op_if_needed tezos params = elim params.reveal [
  | false ↦ ok []
  | true ↦ elim params.public_key [
    | none ↦ ok []
    | some key ↦
        continue_if_revealed
          (estimate_and_build_reveal_operation tezos params.source_address key none)
  ]
]

unfoldable pub check_batch : ForgeOperationParams → List NewOperation → Result (Unit {0})
check_batch params reveals =
    if length params.transactions == max_operations && ltb 0 (length reveals)
    then err max_operations_per_batch
    else ok tt

-- The operations of the batch, before anything is stored.
unfoldable pub build_batch : TezosService → ForgeOperationParams → Result (List NewOperation)
build_batch tezos params = do
  reveals ← add_reveal_op_if_needed tezos params
  check_batch params reveals
  transactions ← operation_contents_with_parameters_json tezos params
  ok (reveals ++ transactions)
