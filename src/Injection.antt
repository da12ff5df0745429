-- ===== src/Injection.antt =====
-- lib/jobs/inject-operation.ts: preapply and inject the operations of a job, and record the hash.
pub mod Mapping
pub mod Laws
pub mod Failure
pub mod Roundtrip
use Prim.Native.String
use tezos_api_gateway.Base.{ℕ, String, true, false, Option, List, [], ◌∷◌}
use tezos_api_gateway.Base.Int.{pos}
use tezos_api_gateway.Base.Decimal.{to_string}
use tezos_api_gateway.Exceptions.{Exn, job_id_not_found, Result, message, is_job_id_not_found}
use tezos_api_gateway.Database.Schema.{error, Job, Operation}
use tezos_api_gateway.Database.Effect.{Action, pure, throw, lift, try_catch, ◌>>=◌, ◌>>◌, hand_over}
use tezos_api_gateway.Database.Jobs.{update_operation_hash, update_job_status_and_error_message}
use tezos_api_gateway.Database.Operations.{Contents, select_operation, of_job}
use tezos_api_gateway.Injection.Mapping.{map_operations}

-- const/interfaces/patch-job-params.ts
pub record PatchJobParams : Type 0 where
  pub job_id : ℕ
  pub signed_transaction : String
  pub signature : String

-- The node that `gatewayPool.getTezosService` has chosen: its answers to `preapplyOperations` and to
-- `injectedOperations`.
pub record Node : Type 0 where
  pub preapply : Option String → List Contents → String → Result (Unit {0})
  pub inject : String → Result String

-- The two places that throw `JobIdNotFoundError`.
unfoldable pub no_parameters : ℕ → Exn
no_parameters id =
    job_id_not_found
      (String.◌++◌ "Could not find the forge parameter with this job id: " (to_string (pos id)))

unfoldable pub no_job : ℕ → Exn
no_job id = job_id_not_found (String.◌++◌ "Could not find job with this id: " (to_string (pos id)))

module _ (node : Node) (params : PatchJobParams) where
  -- From the rows of the job to the end of the `try` block.
  unfoldable pub inject_rows : List Operation → Action (Unit {0})
  unfolding no_parameters no_job
  inject_rows [] = throw (no_parameters params.job_id)
  inject_rows (first ∷ rest) = do
    contents ← lift (map_operations (first ∷ rest))
    lift (node.preapply first.branch contents params.signature)
    hash ← hand_over params.signed_transaction (node.inject params.signed_transaction)
    updated ← update_operation_hash hash params.job_id
    elim updated [ [] ↦ throw (no_job params.job_id) | _ ↦ pure tt ]

  -- The `try` block.
  unfoldable pub attempt : Action (Unit {0})
  unfolding inject_rows
  attempt = select_operation (of_job params.job_id) >>= inject_rows

  -- The `catch` block: the known and the unknown errors differ in what is logged alone.
  unfoldable pub record_failure : Exn → Action (Unit {0})
  record_failure e = elim (is_job_id_not_found e) [
    | true ↦ throw e
    | false ↦ do update_job_status_and_error_message error (message e) params.job_id; throw e
  ]

  unfoldable pub inject_operation : Action (Unit {0})
  unfolding attempt record_failure
  inject_operation = try_catch attempt record_failure
