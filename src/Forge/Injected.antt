-- ===== src/Forge/Injected.antt =====
-- A forge and a later injection of the same job, with nothing between them.
use tezos_api_gateway.Base.{String, ◌≡◌, subst, sym, some, List, [], ◌∷◌, ◌++◌, map, arith, false}
use tezos_api_gateway.Base.Lists.{keep, All}
use tezos_api_gateway.Base.Int.{ℤ}
use mathlib.Core.List.{Perm}
use tezos_api_gateway.Exceptions.{ok}
use tezos_api_gateway.Database.Effect.{World}
use tezos_api_gateway.Database.Jobs.{has_quote, set_where, with_hash}
use tezos_api_gateway.Database.Operations.{Contents, NewOperation, of_job, selected}
use tezos_api_gateway.Injection.{Node, PatchJobParams, inject_operation}
use tezos_api_gateway.Injection.Mapping.{map_operations}
use tezos_api_gateway.Injection.Laws.{inject_operation-IsInjected}
use tezos_api_gateway.Injection.Roundtrip.{forged, selected-All, map_operations-selected}
use tezos_api_gateway.Forge.{contents_of, ForgedJob, forge_operation}
use tezos_api_gateway.Forge.Node.{TezosService, ForgeOperationParams, counter_of}
use tezos_api_gateway.Forge.Assembly.{build_batch}
use tezos_api_gateway.Forge.Stored.{forge_operation-IsStored}

module _ (tezos : TezosService) (node : Node) (now : String) (params : ForgeOperationParams)
    (patch : PatchJobParams) (w v w' : World) (z : ℤ) (result : ForgedJob) where
  -- A forge that returns, and then an injection of its job that returns, have shown the same operations
  -- to the nodes: what was forged is, on its branch and with its parameters as JSON keeps them, what is
  -- preapplied with the signature, in the order in which the database gives the rows; then the
  -- signed transaction is injected, and the job gets the hash of that injection. The counter of the node
  -- must be a number, no row may stand for the new id before, and the hash must hold no quote.
  pub inject_operation-forge_operation :
      counter_of tezos params.source_address ≡ ok (some z)
      → keep (of_job w.store.next_job) w.store.operations ≡ []
      → ((hash : String) → node.inject patch.signed_transaction ≡ ok hash → has_quote hash ≡ false)
      → patch.job_id ≡ result.job.id
      → forge_operation tezos now params w ≡ (ok result, v)
      → inject_operation node patch v ≡ (ok tt, w')
      → (ops : List NewOperation) × (contents : List Contents) × (branch bytes hash : String)
        × (build_batch tezos params ≡ ok ops)
        × (tezos.forge (map contents_of ops) ≡ ok (branch, bytes))
        × Perm contents (map forged ops)
        × (node.preapply (some branch) contents patch.signature ≡ ok tt)
        × (node.inject patch.signed_transaction ≡ ok hash)
        × (w'.store.jobs
            ≡ set_where result.job.id (with_hash hash) (w.store.jobs ++ result.job ∷ []))
  inject_operation-forge_operation at_node fresh plain same forging injecting =
      let stored = forge_operation-IsStored tezos now params w v z result at_node fresh forging in
      let injected = inject_operation-IsInjected node patch v w' plain injecting in
      let rows : selected (of_job result.job.id) v ≡ injected.first ∷ injected.rest =
        rw (sym same) injected.found in
      let branches : All (λ row. row.branch ≡ some stored.branch) (injected.first ∷ injected.rest) =
        subst (λ rs. All (λ row. row.branch ≡ some stored.branch) rs) rows
          (selected-All _ (of_job result.job.id) v stored.branches) in
      let (contents, read, perm) = map_operations-selected (of_job result.job.id) v stored.mapped in
      let mapped : map_operations (injected.first ∷ injected.rest) ≡ ok contents =
        rw (sym rows) read in
      let shown : injected.contents ≡ contents = ground (arith, mapped, injected.mapped) in
      (
        stored.ops,
        contents,
        stored.branch,
        stored.bytes,
        injected.hash,
        stored.built,
        stored.forged_by_node,
        perm,
        rw (sym branches.0, sym shown) injected.preapplied,
        injected.injected,
        ground (arith, injected.jobs, stored.jobs),
      )
