-- ===== src/Forge/Failure.antt =====
-- What `forge_operation` leaves in the database when it throws.
use tezos_api_gateway.Base.{
  String, ◌≡◌, List, [], ◌∷◌, ◌++◌, map, arith, ◌⊎◌, inl, inr, ◌+◌, or_blank,
}
use tezos_api_gateway.Exceptions.{Exn, ok, err, Result-cases}
use tezos_api_gateway.Database.Effect.{World, later}
use tezos_api_gateway.Database.Jobs.{new_row}
use tezos_api_gateway.Database.Answers.{insert_job-Answers, insert_operations_keeps}
use tezos_api_gateway.Database.Operations.{NewOperation, insert_operations}
use tezos_api_gateway.Forge.{contents_of, store_batch, forge_operation}
use tezos_api_gateway.Forge.Node.{TezosService, ForgeOperationParams}
use tezos_api_gateway.Forge.Assembly.{build_batch}
use tezos_api_gateway.Forge.Stored.{new_job}

-- Nothing is stored, or the row of the new job alone.
abbrev pub StoredAtMostJob : String → World → World → Type 0
StoredAtMostJob bytes w w' =
    (w'.store ≡ w.store)
    ⊎ (w'.store ≡ record w.store {
      jobs = w.store.jobs ++ new_row w.store.next_job (new_job bytes) ∷ [];
      next_job = w.store.next_job + 1;
    })

module _ (tezos : TezosService) (now : String) (params : ForgeOperationParams) (w w' : World)
    (x : Exn) where
  store_batch_fails :
      (ops : List NewOperation) (branch bytes : String)
      → store_batch now params ops (branch, bytes) w ≡ (err x, w')
      → StoredAtMostJob bytes w w' × (w'.broadcast ≡ w.broadcast)
  unfolding store_batch new_row
  store_batch_fails ops branch bytes e = elim (insert_job-Answers (new_job bytes) w) [
    | inl (m, fault, rejected) ↦ (inl (ground arith), ground arith)
    | inr answered ↦
        let v = record w {
          store = record w.store {
            jobs = w.store.jobs ++ new_row w.store.next_job (new_job bytes) ∷ [];
            next_job = w.store.next_job + 1;
          };
          faults = later w.faults;
        } in
        let insertion =
          insert_operations now ops branch w.store.next_job (or_blank params.caller_id) v in
        let kept =
          insert_operations_keeps now ops branch w.store.next_job (or_blank params.caller_id) v in
        elim (Result-cases insertion.0) [
          | inl (rows, done) ↦ ground arith
          | inr (y, failed) ↦ (inr (ground (arith, kept.3 y failed)), ground (arith, kept.1))
        ]
  ]

  -- A forge that throws hands nothing to the chain, stores no operation and changes no row. It may
  -- leave one row behind: that of the new job, with the bytes that the node has forged of the batch and
  -- without operations.
  pub forge_operation_fails :
      forge_operation tezos now params w ≡ (err x, w')
      → (w'.broadcast ≡ w.broadcast)
        × ((w'.store ≡ w.store)
            ⊎ ((ops : List NewOperation) × (branch bytes : String) × (build_batch tezos params
                  ≡ ok ops)
                × (tezos.forge (map contents_of ops) ≡ ok (branch, bytes))
                × StoredAtMostJob bytes w w'))
  unfolding forge_operation
  forge_operation_fails e = elim (Result-cases (build_batch tezos params)) [
    | inr (y, failed) ↦ (ground arith, inl (ground arith))
    | inl (ops, built) ↦ elim (Result-cases (tezos.forge (map contents_of ops))) [
      | inr (y, failed) ↦ (ground arith, inl (ground arith))
      | inl ((branch, bytes), forged) ↦
          let failed = store_batch_fails ops branch bytes (ground arith) in
          (failed.1, inr (ops, branch, bytes, built, forged, failed.0))
    ]
  ]
