-- ===== src/Injection/Laws.antt =====
-- What `inject_operation` has done when it returns, and when it throws.
use tezos_api_gateway.Base.{String, ◌≡◌, refl, ◌≢◌, false, List, [], ◌∷◌, ◌++◌, arith, inl, inr}
use tezos_api_gateway.Base.Lists.{keep}
use tezos_api_gateway.Exceptions.{Exn, ok, Result-cases}
use tezos_api_gateway.Database.Schema.{Operation}
use tezos_api_gateway.Database.Effect.{World, hand_over, later}
use tezos_api_gateway.Database.Jobs.{set_where, has_id, has_quote, with_hash}
use tezos_api_gateway.Database.Answers.{update_operation_hash-Answers, select_operation-Answers}
use tezos_api_gateway.Database.Operations.{Contents, of_job, selected}
use tezos_api_gateway.Injection.{
  attempt, Node, PatchJobParams, inject_operation, inject_rows, record_failure,
}
use tezos_api_gateway.Injection.Mapping.{map_operations}

pub record IsInjected (node : Node) (params : PatchJobParams) (w w' : World) : Type 0 where
  pub first : Operation
  pub rest : List Operation
  pub contents : List Contents
  pub hash : String
  pub found : selected (of_job params.job_id) w ≡ first ∷ rest
  pub mapped : map_operations (first ∷ rest) ≡ ok contents
  pub preapplied : node.preapply first.branch contents params.signature ≡ ok tt
  pub injected : node.inject params.signed_transaction ≡ ok hash
  pub exists : keep (has_id params.job_id) w.store.jobs ≢ []
  pub jobs : w'.store.jobs ≡ set_where params.job_id (with_hash hash) w.store.jobs
  pub operations : w'.store.operations ≡ w.store.operations
  pub broadcast : w'.broadcast ≡ w.broadcast ++ params.signed_transaction ∷ []

module _ (node : Node) (params : PatchJobParams) (w w' : World)
    (plain : (hash : String)
      → node.inject params.signed_transaction ≡ ok hash
      → has_quote hash ≡ false) where
  inject_rows-IsInjected :
      (rows : List Operation) (v : World)
      → selected (of_job params.job_id) w ≡ rows
      → v.store ≡ w.store
      → v.broadcast ≡ w.broadcast
      → inject_rows node params rows v ≡ (ok tt, w')
      → IsInjected node params w w'
  unfolding inject_rows hand_over
  inject_rows-IsInjected [] v found same sent e = cc
  inject_rows-IsInjected (first ∷ rest) v found same sent e =
      elim (Result-cases (map_operations (first ∷ rest))) [
        | inr (x, failed) ↦ ground arith
        | inl (contents, mapped) ↦
            elim (Result-cases (node.preapply first.branch contents params.signature)) [
              | inr (x, failed) ↦ ground arith
              | inl (u, preapplied) ↦ elim (Result-cases (node.inject params.signed_transaction)) [
                | inr (x, failed) ↦ ground arith
                | inl (hash, injected) ↦
                    elim (update_operation_hash-Answers hash params.job_id
                      (record v { broadcast = v.broadcast ++ params.signed_transaction ∷ [] })
                      (plain hash injected)) [
                        | inl (m, left, rejected) ↦ ground arith
                        | inr answered ↦ record {
                          first = first;
                          rest = rest;
                          contents = contents;
                          hash = hash;
                          found = found;
                          mapped = mapped;
                          preapplied = preapplied;
                          injected = injected;
                          exists = ground arith;
                          jobs = ground arith;
                          operations = ground arith;
                          broadcast = ground arith;
                        }
                      ]
              ]
            ]
      ]

  record_failure_throws : (x : Exn) (v : World) → record_failure node params x v ≢ (ok tt, w')
  unfolding record_failure
  record_failure_throws x v = ground arith

  -- A run that returns has found the job and its rows, has preapplied the contents that the rows
  -- stand for, has injected the signed operation once, and has set the hash and the status
  -- `published` on that job, and changed nothing else. The hash must hold no quote.
  pub inject_operation-IsInjected :
      inject_operation node params w ≡ (ok tt, w') → IsInjected node params w w'
  unfolding inject_operation attempt
  inject_operation-IsInjected e = elim (select_operation-Answers (of_job params.job_id) w) [
    | inl (m, fault, rejected) ↦ ground arith
    | inr answered ↦
        let rows = selected (of_job params.job_id) w in
        let v = record w { faults = later w.faults } in
        elim (Result-cases (inject_rows node params rows v).0) [
          | inl (u, returned) ↦ inject_rows-IsInjected rows v refl refl refl (ground arith)
          | inr (x, thrown) ↦
              absurd (record_failure_throws x (inject_rows node params rows v).1 (ground arith))
        ]
  ]
