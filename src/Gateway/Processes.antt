-- ===== src/Gateway/Processes.antt =====
-- The operations of lib/jobs/ and the confirmation worker against the steps of the gateway.
use tezos_api_gateway.Base.{ℕ, String, ◌≡◌, refl, Option, List}
use tezos_api_gateway.Database.Effect.{World}
use tezos_api_gateway.Forge.{forge_operation, forge_reveal_operation}
use tezos_api_gateway.Forge.Node.{TezosService, ForgeOperationParams}
use tezos_api_gateway.Injection.{Node, PatchJobParams, inject_operation}
use tezos_api_gateway.Sending.{Sender, SendParams, send_transactions}
use tezos_api_gateway.Gateway.Steps.{Reach}
use tezos_api_gateway.Gateway.Runs.{IsTame, at}
use tezos_api_gateway.Gateway.Handlers.{
  forge_operation-Moved, forge_reveal_operation-Moved, inject_operation-Runs,
}
use tezos_api_gateway.Gateway.Confirming.{check_operation_status-Reach}
use tezos_api_gateway.Confirmation.{Worker, check_operation_status}
use tezos_api_gateway.Sending.Transfers.{TransferSender, TransferParams, send_transfer_transactions}
use tezos_api_gateway.Gateway.Transfers.{send_transfer_transactions-Runs}
use tezos_api_gateway.Gateway.Workers.{send_transactions-Runs}

module _ (tezos : TezosService) (node : Node) (sender : Sender) (now : String) (seen : List ℕ)
    (w : World) where
  -- Whatever the nodes, the vault, the indexers and the database answer, each process changes the tables
  -- by a sequence of the steps of the gateway alone: a forge and the forge of a reveal insert rows for
  -- the new job, a sending and a transfer for their job, and an injection and the confirmation worker for none; the worker
  -- finishes only jobs that it has read as waiting. No text may be an attack: a statement in which a text
  -- ends its own quotes must be refused or change the tables by steps too.
  pub jobs-Reach :
      IsTame w
      → (params : ForgeOperationParams) (address key : String) (caller : Option String)
        (fee : Option ℕ) (patch : PatchJobParams) (sending : SendParams) (payer : TransferSender)
        (transfer : TransferParams) (worker : Worker)
      → let new = λ (id : ℕ). id ≡ w.store.next_job in
        Reach new (at seen w.store) (at seen (forge_operation tezos now params w).1.store)
        × Reach new
            (at seen w.store)
            (at seen (forge_reveal_operation tezos now address key caller fee w).1.store)
        × Reach (λ id. ⊥) (at seen w.store) (at seen (inject_operation node patch w).1.store)
        × Reach
            (λ id. id ≡ sending.job_id)
            (at seen w.store)
            (at seen (send_transactions sender now sending w).1.store)
        × Reach
            (λ id. id ≡ transfer.job_id)
            (at seen w.store)
            (at seen (send_transfer_transactions payer now transfer w).1.store)
        × (later_seen : List ℕ) × Reach
            (λ id. ⊥)
            (at seen w.store)
            (at later_seen (check_operation_status worker w).1.store)
  jobs-Reach tame params address key caller fee patch sending payer transfer worker =
      let (later_seen, run, still) = check_operation_status-Reach seen worker w tame in
      (
        (forge_operation-Moved tezos now params w refl tame).0,
        (forge_reveal_operation-Moved tezos now address key caller fee w refl tame).0,
        (inject_operation-Runs node patch w tame).0,
        (send_transactions-Runs sender now sending refl w tame).0,
        (send_transfer_transactions-Runs payer now transfer refl w tame).0,
        later_seen,
        run,
      )
