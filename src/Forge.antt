-- ===== src/Forge.antt =====
-- lib/jobs/forge-operation.ts: build a batch of transactions, with a reveal in front when the address
-- needs one, forge it, and store the job and its operations.
pub mod Node
pub mod Reveal
pub mod Batch
pub mod Assembly
pub mod Estimation
pub mod Counters
pub mod Decimals
pub mod Batched
pub mod Stored
pub mod Failure
pub mod Injected
pub mod Estimated
use tezos_api_gateway.Base.{ℕ, String, Bool, true, false, ◌&&◌, Option, none, some, List, []}
use tezos_api_gateway.Base.{◌∷◌, ◌++◌, map, ltb, ◌==◌, or_blank, if◌then◌else◌}
use tezos_api_gateway.Base.Lists.{length}
use tezos_api_gateway.Base.Int.{ℤ, pos, ◌+ℤ◌, ◌-ℤ◌}
use tezos_api_gateway.Base.Decimal.{parse_int}
use tezos_api_gateway.Exceptions.{Exn, max_operations_per_batch, Result, ok, err}
use tezos_api_gateway.Database.Schema.{Job, OpKind, transaction, created}
use tezos_api_gateway.Database.Effect.{Action, pure, lift, ◌>>=◌}
use tezos_api_gateway.Database.Jobs.{insert_job}
use tezos_api_gateway.Database.Operations.{
  Contents, reveal_contents, transaction_contents, NewOperation, new_reveal, new_transaction,
  insert_operations,
}
use tezos_api_gateway.Forge.Node.{TezosService, ForgeOperationParams}
use tezos_api_gateway.Forge.Reveal.{estimate_and_build_reveal_operation}
use tezos_api_gateway.Forge.Assembly.{build_batch}

-- config/index.ts
abbrev gas_limit_margin : ℤ
gas_limit_margin = pos 100

-- `_.omit(param, 'parametersJson')`
abbrev pub contents_of : NewOperation → Contents
contents_of (new_reveal op) = reveal_contents op
contents_of (new_transaction op _) = transaction_contents op

abbrev pub fee_of : NewOperation → String
fee_of (new_reveal op) = op.fee
fee_of (new_transaction op _) = op.fee

abbrev pub gas_limit_of : NewOperation → String
gas_limit_of (new_reveal op) = op.gas_limit
gas_limit_of (new_transaction op _) = op.gas_limit

-- `acc + Number(text) - less`, where NaN is `none`. The texts are those of `toString`, on which
-- `Number` and `parseInt` agree.
abbrev pub add_text : Option ℤ → String → ℤ → Option ℤ
add_text none text less = none
add_text (some acc) text less = elim (parse_int text) [
  | none ↦ none
  | some z ↦ some (acc +ℤ z -ℤ less)
]

unfoldable pub sum_texts : ℤ → Option ℤ → List String → Option ℤ
sum_texts less acc [] = acc
sum_texts less acc (text ∷ texts) = sum_texts less (add_text acc text less) texts

unfoldable pub total_fee : List NewOperation → Option ℤ
unfolding sum_texts
total_fee ops = sum_texts (pos 0) (some (pos 0)) (map fee_of ops)

unfoldable pub total_gas : List NewOperation → Option ℤ
unfolding sum_texts
total_gas ops = sum_texts gas_limit_margin (some (pos 0)) (map gas_limit_of ops)

pub record ForgedJob : Type 0 where
  pub job : Job
  pub fee : Option ℤ
  pub gas : Option ℤ

-- From the forged bytes to the stored job.
unfoldable pub store_batch :
    String → ForgeOperationParams → List NewOperation → String × String → Action ForgedJob
store_batch now params ops (branch, forged_operation) = do
  job ← insert_job (record {
    status = created;
    forged_operation = some forged_operation;
    operation_hash = none;
    operation_kind = some transaction;
  })
  rows ← insert_operations now ops branch job.id (or_blank params.caller_id)
  pure (record { job = job; fee = total_fee ops; gas = total_gas ops })

unfoldable pub forge_operation : TezosService → String → ForgeOperationParams → Action ForgedJob
unfolding store_batch
forge_operation tezos now params = do
  ops ← lift (build_batch tezos params)
  forged ← lift (tezos.forge (map contents_of ops))
  store_batch now params ops forged

-- `forgeRevealOperation` of lib/jobs/forge-reveal-operation.ts
unfoldable pub forge_reveal_operation :
    TezosService → String → String → String → Option String → Option ℕ → Action ForgedJob
forge_reveal_operation tezos now address key caller_id fee = do
  op ← lift (estimate_and_build_reveal_operation tezos address key fee)
  forged ← lift (tezos.forge (contents_of op ∷ []))
  job ← insert_job (record {
    status = created;
    forged_operation = some forged.1;
    operation_hash = none;
    operation_kind = some OpKind.reveal;
  })
  rows ← insert_operations now (op ∷ []) forged.0 job.id (or_blank caller_id)
  pure (record {
    job = job;
    fee = parse_int (fee_of op);
    gas = add_text (some (pos 0)) (gas_limit_of op) gas_limit_margin;
  })
