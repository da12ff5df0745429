-- ===== src/Forge/Stored.antt =====
-- What `forge_operation` leaves in the database, and what a later injection sends.
use tezos_api_gateway.Base.{
  String, ◌≡◌, refl, ap, none, some, List, [], ◌∷◌, ◌++◌, ◌+◌, map, arith, inl, inr, or_blank,
}
use tezos_api_gateway.Base.Lists.{All, keep}
use tezos_api_gateway.Base.Int.{ℤ}
use tezos_api_gateway.Exceptions.{ok, Result-cases}
use tezos_api_gateway.Database.Schema.{Operation, created, transaction}
use tezos_api_gateway.Database.Effect.{World, later}
use tezos_api_gateway.Database.Jobs.{NewJob, new_row}
use tezos_api_gateway.Database.Answers.{insert_job-Answers, insert_operations_keeps}
use tezos_api_gateway.Database.Operations.{NewOperation, insert_operations, of_job}
use tezos_api_gateway.Injection.Mapping.{map_operations}
use tezos_api_gateway.Injection.Roundtrip.{forged, map_operations-stored}
use tezos_api_gateway.Forge.{
  contents_of, total_fee, total_gas, ForgedJob, store_batch, forge_operation,
}
use tezos_api_gateway.Forge.Node.{TezosService, ForgeOperationParams, counter_of}
use tezos_api_gateway.Forge.Assembly.{build_batch}
use tezos_api_gateway.Forge.Decimals.{build_batch-IsForged}

-- The row of the job of a batch.
abbrev pub new_job : String → NewJob
new_job bytes = record {
  status = created;
  forged_operation = some bytes;
  operation_hash = none;
  operation_kind = some transaction;
}

pub record IsStored (tezos : TezosService) (params : ForgeOperationParams) (w w' : World)
    (result : ForgedJob) : Type 0 where
  pub ops : List NewOperation
  pub branch : String
  pub bytes : String
  pub built : build_batch tezos params ≡ ok ops
  pub forged_by_node : tezos.forge (map contents_of ops) ≡ ok (branch, bytes)
  pub job : result.job ≡ new_row w.store.next_job (new_job bytes)
  pub jobs : w'.store.jobs ≡ w.store.jobs ++ result.job ∷ []
  pub fee : result.fee ≡ total_fee ops
  pub gas : result.gas ≡ total_gas ops
  pub broadcast : w'.broadcast ≡ w.broadcast
  pub mapped :
      map_operations (keep (of_job result.job.id) w'.store.operations) ≡ ok (map forged ops)
  pub branches :
      All (λ row. row.branch ≡ some branch) (keep (of_job result.job.id) w'.store.operations)

module _ (tezos : TezosService) (now : String) (params : ForgeOperationParams) (w w' : World) where
  pub store_batch-inv :
      (ops : List NewOperation) (branch bytes : String) (result : ForgedJob)
      → store_batch now params ops (branch, bytes) w ≡ (ok result, w')
      → (v : World) × (rows : List Operation) × (v.store ≡ record w.store {
        jobs = w.store.jobs ++ new_row w.store.next_job (new_job bytes) ∷ [];
        next_job = w.store.next_job + 1;
      })
        × (v.broadcast ≡ w.broadcast)
        × (result ≡ record {
          job = new_row w.store.next_job (new_job bytes);
          fee = total_fee ops;
          gas = total_gas ops;
        })
        × (insert_operations now ops branch w.store.next_job (or_blank params.caller_id) v
            ≡ (ok rows, w'))
  unfolding store_batch new_row
  store_batch-inv ops branch bytes result e = elim (insert_job-Answers (new_job bytes) w) [
    | inl (m, fault, rejected) ↦ ground arith
    | inr answered ↦
        let v = record w {
          store = record w.store {
            jobs = w.store.jobs ++ new_row w.store.next_job (new_job bytes) ∷ [];
            next_job = w.store.next_job + 1;
          };
          faults = later w.faults;
        } in
        let insertion =
          insert_operations now ops branch w.store.next_job (or_blank params.caller_id) v in
        elim (Result-cases insertion.0) [
          | inr (x, failed) ↦ ground arith
          | inl (rows, done) ↦ (v, rows, refl, refl, ground arith, ground arith)
        ]
  ]

  -- A forge that returns has stored one job with the status `created`, the bytes that the node
  -- forged for the batch and a new id. The rows of that job, in the order of insertion,
  -- stand for exactly the operations of the batch, on the branch of the node. The fee and the gas of the
  -- answer are the sums over the batch. The counter of the node must be a number, and no row may
  -- stand for the new id yet.
  pub forge_operation-IsStored :
      (z : ℤ) (result : ForgedJob)
      → counter_of tezos params.source_address ≡ ok (some z)
      → keep (of_job w.store.next_job) w.store.operations ≡ []
      → forge_operation tezos now params w ≡ (ok result, w')
      → IsStored tezos params w w' result
  unfolding forge_operation new_row
  forge_operation-IsStored z result at_node fresh e =
      elim (Result-cases (build_batch tezos params)) [
        | inr (x, failed) ↦ ground arith
        | inl (ops, built) ↦ elim (Result-cases (tezos.forge (map contents_of ops))) [
          | inr (x, failed) ↦ ground arith
          | inl ((branch, bytes), forged_by_node) ↦
              let (v, rows, store, sent, same, inserted) =
                store_batch-inv ops branch bytes result (ground arith) in
              let back =
                map_operations-stored now branch w.store.next_job (or_blank params.caller_id) ops v
                  w' rows (build_batch-IsForged tezos params z at_node ops built) (rw store fresh)
                  inserted in
              let kept =
                insert_operations_keeps now ops branch w.store.next_job (or_blank params.caller_id)
                  v in
              record {
                ops = ops;
                branch = branch;
                bytes = bytes;
                built = built;
                forged_by_node = forged_by_node;
                job = ap (λ r. r.job) same;
                jobs = ground (arith, kept, store, same);
                fee = ap (λ r. r.fee) same;
                gas = ap (λ r. r.gas) same;
                broadcast = ground (arith, kept, sent);
                mapped = rw same back.0;
                branches = rw same back.1;
              }
        ]
      ]
