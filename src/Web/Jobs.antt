-- ===== src/Web/Jobs.antt =====
-- The controllers of processes/web/api/jobs/ that forge, estimate and read.
use Prim.Native.String
use tezos_api_gateway.Base.{
  ℕ, String, Bool, true, false, ◌&&◌, Option, none, some, List, [], ◌∷◌, ltb, str_eq, is_empty,
  if◌then◌else◌,
}
use tezos_api_gateway.Base.Lists.{length}
use tezos_api_gateway.Base.Int.{ℤ, pos, negsuc}
use tezos_api_gateway.Base.Decimal.{to_string}
use tezos_api_gateway.Exceptions.{
  Exn, max_operations_per_batch, public_key_undefined, job_id_not_found, Result, ok, err,
}
use tezos_api_gateway.Database.Schema.{Job, Operation}
use tezos_api_gateway.Database.Effect.{Action, pure, throw, lift, ◌>>=◌, ◌>>◌, map_all}
use tezos_api_gateway.Database.Jobs.{select_jobs, has_id, has_quote}
use tezos_api_gateway.Database.Operations.{select_operation}
use tezos_api_gateway.Forge.{ForgedJob, forge_operation, forge_reveal_operation}
use tezos_api_gateway.Forge.Node.{TezosService, ForgeOperationParams}
use tezos_api_gateway.Forge.Assembly.{max_operations}
use tezos_api_gateway.Forge.Estimation.{Estimation, estimate_operation}
use tezos_api_gateway.Web.{http_error, Controller, respond}
use tezos_api_gateway.Web.Errors.{forge_error, reveal_error, get_error}

abbrev pub is_missing : Option String → Bool
is_missing none = true
is_missing (some _) = false

-- The two guards before a batch is forged or estimated.
unfoldable pub check_request : ForgeOperationParams → Result (Unit {0})
check_request params =
    if ltb max_operations (length params.transactions)
    then err max_operations_per_batch
    else if params.reveal && is_missing params.public_key
    then err public_key_undefined
    else ok tt

-- `forgeOperationAndCreateJob`
unfoldable pub forge_operation_and_create_job :
    TezosService → String → ForgeOperationParams → Controller ForgedJob
unfolding respond forge_error check_request
forge_operation_and_create_job tezos now params =
    respond 201 forge_error (lift (check_request params) >> forge_operation tezos now params)

-- `getOperationEstimation`; an estimation has no caller.
unfoldable pub get_operation_estimation :
    TezosService → ForgeOperationParams → Controller (List Estimation)
unfolding respond forge_error check_request
get_operation_estimation tezos params = respond 200 forge_error (
    lift (check_request params)
    >> lift (estimate_operation tezos (record params { caller_id = none })))

-- `forgeRevealOperationAndCreateJob`
unfoldable pub forge_reveal_operation_and_create_job :
    TezosService → String → String → String → Option String → Option ℕ → Controller ForgedJob
unfolding respond reveal_error
forge_reveal_operation_and_create_job tezos now address key caller_id fee =
    respond 201 reveal_error (forge_reveal_operation tezos now address key caller_id fee)

-- The condition `id=…` for a number.
abbrev pub has_number : ℤ → Job → Bool
has_number (pos n) job = has_id n job
has_number (negsuc n) job = false

abbrev pub first_job : Exn → List Job → Action Job
first_job missing [] = throw missing
first_job missing (job ∷ _) = pure job

unfoldable pub unknown_job : ℤ → Exn
unknown_job z = job_id_not_found (String.◌++◌ "Could not find job with this id: " (to_string z))

unfoldable pub unknown_caller : String → Exn
unknown_caller caller_id =
    job_id_not_found (String.◌++◌ "Could not find jobs for this caller id: " caller_id)

-- `getJobById`, with `Number(…)` for the texts of integers, where NaN is `none`.
unfoldable pub get_job_by_id : (String → Option ℤ) → String → Controller Job
unfolding respond get_error select_jobs unknown_job
get_job_by_id to_number id w =
    if is_empty id then (http_error 400 "Bad query params", w) else elim (to_number id) [
      | none ↦ (http_error 400 "Bad query params", w)
      | some z ↦ respond 200 get_error (select_jobs (has_number z) >>= first_job (unknown_job z)) w
    ]

abbrev pub has_caller : String → Operation → Bool
has_caller caller_id op = elim op.caller_id [ none ↦ false | some c ↦ str_eq c caller_id ]

unfoldable pub find_job : Operation → Action Job
unfolding select_jobs unknown_job
find_job op = select_jobs (has_id op.job_id) >>= first_job (unknown_job (pos op.job_id))

unfoldable pub jobs_of_rows : String → List Operation → Action (List Job)
unfolding find_job unknown_caller map_all
jobs_of_rows caller_id [] = throw (unknown_caller caller_id)
jobs_of_rows caller_id (op ∷ ops) = map_all find_job (op ∷ ops)

-- `getJobsByCallerId`. `broken` is what Postgres makes of the statement when the id of the caller
-- holds a quote.
unfoldable pub get_jobs_by_caller_id :
    (String → Action (List Operation)) → String → Controller (List Job)
unfolding respond get_error select_operation jobs_of_rows
get_jobs_by_caller_id broken caller_id w =
    if is_empty caller_id
    then (http_error 400 "Bad query params", w)
    else (let rows =
          if has_quote caller_id
          then broken caller_id
          else select_operation (has_caller caller_id) in
        respond 200 get_error (rows >>= jobs_of_rows caller_id) w)
